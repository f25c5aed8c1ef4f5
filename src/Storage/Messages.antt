-- ===== src/Storage/Messages.antt =====
-- src/storage/MessageRepository.h and MessageRepository.cpp, over the table `messages` of
-- Database.cpp.
pub mod Stored
pub mod Insert
pub mod Latest
pub mod Pages
pub mod Scroll
pub mod Unread
pub mod Search
use mathlib.Core.Option
use mathlib.Core.Bool.{false≢true}
use mathlib.Core.List.{reverse}
use local_messenger.Common.{
  ℕ, ◌+◌, ◌<◌, ◌≡◌, refl, Bool, true, false, ◌==◌, if◌then◌else◌, List, [], ◌∷◌, ◌++◌, map, Option,
  none, some, Bytes, Bytes-discrete, ℕ_discrete, dec_lt, codes, length, take, drop,
}
use local_messenger.Storage.{ContactRow, MessageRow, Database, Stamp, Result, ok, sql_error}
use local_messenger.Storage.Sql.{OrderBy, head, select, select_one, update}
use local_messenger.Storage.Contacts.{has_id}

-- The enumerations are `int`s; a number that no enumerator has is `other`.
pub data MessageDirection : Type 0 where
  incoming outgoing : MessageDirection
  other : ℕ → MessageDirection

pub data MessageStatus : Type 0 where
  sent delivered read : MessageStatus
  other : ℕ → MessageStatus

pub data MessageType : Type 0 where
  text image file voice : MessageType
  other : ℕ → MessageType

unfoldable pub direction_code : MessageDirection → ℕ
direction_code incoming = 0
direction_code outgoing = 1
direction_code (MessageDirection.other n) = n

unfoldable pub direction_of : ℕ → MessageDirection
direction_of n =
    if n == 0 then incoming else (if n == 1 then outgoing else MessageDirection.other n)

unfoldable pub status_code : MessageStatus → ℕ
status_code sent = 0
status_code delivered = 1
status_code read = 2
status_code (MessageStatus.other n) = n

unfoldable pub status_of : ℕ → MessageStatus
status_of n =
    if n == 0
    then sent
    else (if n == 1 then delivered else (if n == 2 then read else MessageStatus.other n))

unfoldable pub msg_type_code : MessageType → ℕ
msg_type_code text = 1
msg_type_code image = 2
msg_type_code file = 3
msg_type_code voice = 4
msg_type_code (MessageType.other n) = n

unfoldable pub msg_type_of : ℕ → MessageType
msg_type_of n =
    if n == 1
    then text
    else (if n == 2
        then image
        else (if n == 3 then file else (if n == 4 then voice else MessageType.other n)))

pub record Message : Type 0 where
  pub id : ℕ
  pub contact_id : ℕ
  pub direction : MessageDirection
  pub msg_type : MessageType
  pub content : Bytes
  pub encrypted : Bytes
  pub status : MessageStatus
  pub msg_uuid : Bytes
  pub created_at : ℕ

abbrev pub default_message : Message
default_message = record {
  id = 0;
  contact_id = 0;
  direction = outgoing;
  msg_type = text;
  content = [];
  encrypted = [];
  status = sent;
  msg_uuid = [];
  created_at = 0;
}

-- An empty `encrypted` is bound as NULL.
unfoldable pub to_blob : Bytes → Option Bytes
to_blob [] = none
to_blob (b ∷ bs) = some (b ∷ bs)

unfoldable pub from_blob : Option Bytes → Bytes
from_blob none = []
from_blob (some b) = b

unfoldable pub row_to_message : MessageRow → Message
unfolding direction_of status_of msg_type_of from_blob
row_to_message r = record {
  id = r.id;
  contact_id = r.contact_id;
  direction = direction_of r.direction;
  msg_type = msg_type_of r.msg_type;
  content = r.content;
  encrypted = from_blob r.encrypted;
  status = status_of r.status;
  msg_uuid = r.msg_uuid;
  created_at = r.created_at;
}

unfoldable pub message_row : Stamp → Message → MessageRow
unfolding direction_code status_code msg_type_code to_blob
message_row t m = record {
  id = t.rowid;
  contact_id = m.contact_id;
  direction = direction_code m.direction;
  msg_type = msg_type_code m.msg_type;
  content = m.content;
  encrypted = to_blob m.encrypted;
  status = status_code m.status;
  msg_uuid = m.msg_uuid;
  created_at = t.now;
}

abbrev pub with_message : Stamp → Message → Database → Database
with_message t m db = record db {
  messages = db.messages ++ (message_row t m ∷ []);
  message_seq = t.rowid;
  last_insert_rowid = t.rowid;
}

-- `FOREIGN KEY (contact_id)`: the contact has to be there.
unfoldable pub insert_for : Stamp → Message → Database → Option ContactRow → Result (Database × ℕ)
unfolding message_row
insert_for t m db none = sql_error
insert_for t m db (some c) = ok (with_message t m db, t.rowid)

unfoldable pub insert : Stamp → Message → Database → Result (Database × ℕ)
unfolding insert_for
insert t m db = insert_for t m db (select_one (has_id m.contact_id) db.contacts)

abbrev pub created : MessageRow → ℕ
created r = r.created_at

abbrev pub of_contact : (i : ℕ) (m : MessageRow) → Dec (m.contact_id ≡ i)
of_contact i m = ℕ_discrete m.contact_id i

abbrev pub has_uuid : (u : Bytes) (m : MessageRow) → Dec (m.msg_uuid ≡ u)
has_uuid u m = Bytes-discrete m.msg_uuid u

-- ORDER BY created_at DESC LIMIT OFFSET, then turned round: the oldest message of the page is first.
unfoldable pub get_by_contact : OrderBy created → ℕ → ℕ → ℕ → Database → List Message
get_by_contact newest contact_id limit offset db = reverse (
    map row_to_message
      (take limit (drop offset (newest.sort (select (of_contact contact_id) db.messages)))))

unfoldable pub find_by_uuid : Bytes → Database → Option Message
find_by_uuid uuid db = Option.map row_to_message (select_one (has_uuid uuid) db.messages)

unfoldable pub update_status : Bytes → MessageStatus → Database → Database
update_status uuid status db = record db {
  messages = update (has_uuid uuid) (λ r. record r { status = status_code status }) db.messages;
}

abbrev pub dec_true : (b : Bool) → Dec (b ≡ true)
dec_true true = yes refl
dec_true false = no false≢true

-- `like pattern text` is SQLite's LIKE.
unfoldable pub search :
    OrderBy created → (Bytes → Bytes → Bool) → Bytes → ℕ → Database → List Message
search newest like query limit db = map row_to_message (
    take limit (
      newest.sort
        (select (λ m. dec_true (like (codes "%" ++ (query ++ codes "%")) m.content)) db.messages)))

abbrev dec_and : {P Q : Type 0} → Dec P → Dec Q → Dec (P × Q)
dec_and (yes p) (yes q) = yes (p, q)
dec_and (yes p) (no q) = no (λ h. q h.1)
dec_and (no p) d = no (λ h. p h.0)

-- WHERE contact_id = ? AND direction = 0 AND status < 2
abbrev pub is_unread :
    (i : ℕ) (m : MessageRow) → Dec ((m.contact_id ≡ i) × ((m.direction ≡ 0) × (m.status < 2)))
is_unread i m =
    dec_and (ℕ_discrete m.contact_id i) (dec_and (ℕ_discrete m.direction 0) (dec_lt m.status 2))

unfoldable pub unread_count : ℕ → Database → ℕ
unread_count contact_id db = length (select (is_unread contact_id) db.messages)

unfoldable pub mark_all_read : ℕ → Database → Database
mark_all_read contact_id db = record db {
  messages = update (is_unread contact_id) (λ r. record r { status = 2 }) db.messages;
}

unfoldable pub last_message : OrderBy created → ℕ → Database → Option Message
last_message newest contact_id db =
    Option.map row_to_message (head (newest.sort (select (of_contact contact_id) db.messages)))
