-- ===== src/Storage/Messages/Insert.antt =====
-- A stored message comes back as it was stored; a message to nobody is refused.
use mathlib.Core.Option
use local_messenger.Common.{
  ◌≡◌, ◌↔◌, refl, ap, ◌∙◌, ite, List, [], ◌∷◌, ◌++◌, none, some, Bytes, Bytes-discrete,
  Option-cases, inl, inr, arith,
}
use local_messenger.Storage.{ContactRow, MessageRow, Database, Stamp, ok, sql_error}
use local_messenger.Storage.Sql.{select_one, update, none_of_map}
use local_messenger.Storage.Contacts.{has_id, find_by_id, row_to_contact}
use local_messenger.Storage.Messages.Stored.{insert_stores}
use local_messenger.Storage.Messages.{
  Message, MessageStatus, direction_code, direction_of, status_code, status_of, msg_type_code,
  msg_type_of, to_blob, from_blob, row_to_message, message_row, with_message, insert, insert_for,
  has_uuid, find_by_uuid, update_status,
}

-- The enumerations hold their own enumerators, or a number that is none of them.
pub record IsMessage (m : Message) : Type 0 where
  pub direction : direction_of (direction_code m.direction) ≡ m.direction
  pub msg_type : msg_type_of (msg_type_code m.msg_type) ≡ m.msg_type
  pub status : status_of (status_code m.status) ≡ m.status

from_blob-to_blob : (b : Bytes) → from_blob (to_blob b) ≡ b
unfolding from_blob to_blob
from_blob-to_blob [] = refl
from_blob-to_blob (b ∷ bs) = refl

pub row_to_message-message_row :
    (t : Stamp) (m : Message)
    → IsMessage m
    → row_to_message (message_row t m) ≡ record m { id = t.rowid; created_at = t.now }
unfolding row_to_message message_row
row_to_message-message_row t m v =
    rw (v.direction, v.msg_type, v.status, from_blob-to_blob m.encrypted)

find_last :
    (u : Bytes) (r : MessageRow) (rows : List MessageRow)
    → r.msg_uuid ≡ u
    → select_one (has_uuid u) rows ≡ none
    → select_one (has_uuid u) (rows ++ (r ∷ [])) ≡ some r
unfolding select_one
find_last u r [] e n = ground arith
find_last u r (x ∷ rows) e n = ground (arith, find_last u r rows e)

-- A message to a contact that is there, under a UUID that no message has, is stored under the id of
-- the statement, and found by that UUID with all that it was given, its id and its time.
pub find_by_uuid-insert :
    (t : Stamp) (m : Message) (db : Database) (c : ContactRow)
    → IsMessage m
    → select_one (has_id m.contact_id) db.contacts ≡ some c
    → find_by_uuid m.msg_uuid db ≡ none
    → (db' : Database) × (insert t m db ≡ ok (db', t.rowid))
      × (find_by_uuid m.msg_uuid db' ≡ some (record m { id = t.rowid; created_at = t.now }))
unfolding find_by_uuid insert
find_by_uuid-insert t m db c v known unused = (
  with_message t m db,
  insert_stores t m db c known,
  ap (Option.map row_to_message) (
        find_last m.msg_uuid (message_row t m) db.messages (unfold message_row in refl)
          (none_of_map row_to_message _ unused))
      ∙ ap some (row_to_message-message_row t m v),
)

-- A message is refused if and only if its contact is not there.
pub insert_refused_iff :
    (t : Stamp) (m : Message) (db : Database)
    → (insert t m db ≡ sql_error) ↔ (find_by_id m.contact_id db ≡ none)
unfolding find_by_id insert
insert_refused_iff t m db = (
  λ h. elim (Option-cases (select_one (has_id m.contact_id) db.contacts)) [
    | inl e ↦ ap (Option.map row_to_contact) e
    | inr (c, e) ↦ ground (arith, e, h)
  ],
  λ e. rw (none_of_map row_to_contact _ e, insert_for),
)

select_one-update :
    (u w : Bytes) (f : MessageRow → MessageRow) (rows : List MessageRow)
    → ((r : MessageRow) → (f r).msg_uuid ≡ r.msg_uuid)
    → select_one (has_uuid w) (update (has_uuid u) f rows)
      ≡ ite
          (Bytes-discrete u w)
          (Option.map f (select_one (has_uuid w) rows))
          (select_one (has_uuid w) rows)
unfolding select_one update
select_one-update u w f [] keep = ground arith
select_one-update u w f (r ∷ rows) keep = ground (arith, keep r, select_one-update u w f rows keep)

abbrev pub with_status : MessageStatus → Message → Message
with_status status m = record m { status = status }

-- After update_status the message that its UUID finds has the new status, and all else as it was;
-- another UUID finds the message that it found.
pub find_by_uuid-update_status :
    (u w : Bytes) (status : MessageStatus) (db : Database)
    → status_of (status_code status) ≡ status
    → find_by_uuid w (update_status u status db)
      ≡ ite
          (Bytes-discrete u w)
          (Option.map (with_status status) (find_by_uuid w db))
          (find_by_uuid w db)
unfolding find_by_uuid update_status row_to_message
find_by_uuid-update_status u w status db v = ground (
  arith,
  select_one-update u w (λ r. record r { status = status_code status }) db.messages (λ r. refl),
  v,
)
