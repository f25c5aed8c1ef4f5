-- ===== src/Storage/Contacts.antt =====
-- src/storage/ContactRepository.h and ContactRepository.cpp, over the table `contacts` of
-- Database.cpp.
pub mod Upsert
pub mod Ids
pub mod Removal
pub mod Address
use local_messenger.Common.{
  ℕ, ◌+◌, ◌%◌, ◌^◌, ◌≡◌, Bool, false, not, ◌==◌, if◌then◌else◌, List, [], ◌∷◌, ◌++◌, map, Option,
  none, some, Bytes, Bytes-discrete, ℕ_discrete,
}
use mathlib.Core.Option
use local_messenger.Storage.{ContactRow, MessageRow, Database, Stamp, Result, ok, sql_error}
use local_messenger.Storage.Sql.{OrderBy, head, select, select_one, update, delete}

pub record Contact : Type 0 where
  pub id : ℕ
  pub username : Bytes
  pub ip : Bytes
  pub port : ℕ
  pub public_key : Bytes
  pub fingerprint : Bytes
  pub avatar_path : Bytes
  pub is_blocked : Bool
  pub created_at : ℕ
  pub updated_at : ℕ

abbrev pub default_contact : Contact
default_contact = record {
  id = 0;
  username = [];
  ip = [];
  port = 7777;
  public_key = [];
  fingerprint = [];
  avatar_path = [];
  is_blocked = false;
  created_at = 0;
  updated_at = 0;
}

unfoldable pub row_to_contact : ContactRow → Contact
row_to_contact r = record {
  id = r.id;
  username = r.username;
  ip = r.ip;
  port = r.port % 2 ^ 16;
  public_key = r.public_key;
  fingerprint = r.fingerprint;
  avatar_path = r.avatar_path;
  is_blocked = not (r.is_blocked == 0);
  created_at = r.created_at;
  updated_at = r.updated_at;
}

-- The row of INSERT, with the columns that the statement leaves to their defaults.
unfoldable pub inserted : Stamp → Contact → ContactRow
inserted t c = record {
  id = t.rowid;
  username = c.username;
  ip = c.ip;
  port = c.port;
  public_key = c.public_key;
  fingerprint = c.fingerprint;
  avatar_path = c.avatar_path;
  is_blocked = if c.is_blocked then 1 else 0;
  created_at = t.now;
  updated_at = t.now;
}

-- The row of DO UPDATE SET.
unfoldable pub overwritten : Stamp → Contact → ContactRow → ContactRow
overwritten t c r = record r {
  username = c.username;
  ip = c.ip;
  port = c.port;
  fingerprint = c.fingerprint;
  avatar_path = c.avatar_path;
  updated_at = t.now;
}

abbrev pub has_key : (k : Bytes) (r : ContactRow) → Dec (r.public_key ≡ k)
has_key k r = Bytes-discrete r.public_key k

abbrev pub has_id : (i : ℕ) (r : ContactRow) → Dec (r.id ≡ i)
has_id i r = ℕ_discrete r.id i

abbrev pub has_ip : (ip : Bytes) (r : ContactRow) → Dec (r.ip ≡ ip)
has_ip ip r = Bytes-discrete r.ip ip

unfoldable pub insert_or_update : Stamp → Contact → Database → Option ContactRow → Database
unfolding inserted overwritten
insert_or_update t c db none = record db {
  contacts = db.contacts ++ (inserted t c ∷ []);
  contact_seq = t.rowid;
  last_insert_rowid = t.rowid;
}
insert_or_update t c db (some r) = record db {
  contacts = update (has_key c.public_key) (overwritten t c) db.contacts;
}

-- The statement, and `getLastInsertRowid` after it.
unfoldable pub upsert : Stamp → Contact → Database → Database × ℕ
unfolding insert_or_update
upsert t c db =
    let db' = insert_or_update t c db (select_one (has_key c.public_key) db.contacts) in
    (db', db'.last_insert_rowid)

unfoldable pub find_by_id : ℕ → Database → Option Contact
find_by_id id db = Option.map row_to_contact (select_one (has_id id) db.contacts)

unfoldable pub find_by_public_key : Bytes → Database → Option Contact
find_by_public_key pub_key db = Option.map row_to_contact (select_one (has_key pub_key) db.contacts)

abbrev pub updated : ContactRow → ℕ
updated r = r.updated_at

unfoldable pub find_by_ip : OrderBy updated → Bytes → Database → Option Contact
find_by_ip by_update ip db =
    Option.map row_to_contact (head (by_update.sort (select (has_ip ip) db.contacts)))

-- ORDER BY username: the order of the rows is an input.
unfoldable pub all : (List ContactRow → List ContactRow) → Database → List Contact
all by_username db = map row_to_contact (by_username db.contacts)

-- `PRAGMA foreign_keys=ON`: a contact that messages refer to cannot be deleted.
abbrev pub sent_to : (i : ℕ) (m : MessageRow) → Dec (m.contact_id ≡ i)
sent_to i m = ℕ_discrete m.contact_id i

unfoldable pub delete_unless_referred : ℕ → Database → Option MessageRow → Result Database
delete_unless_referred id db none = ok (record db { contacts = delete (has_id id) db.contacts })
delete_unless_referred id db (some m) = sql_error

unfoldable pub remove : ℕ → Database → Result Database
unfolding delete_unless_referred
remove id db = delete_unless_referred id db (select_one (sent_to id) db.messages)

unfoldable pub update_address : Stamp → ℕ → Bytes → ℕ → Database → Database
update_address t id ip port db = record db {
  contacts =
      update (has_id id) (λ r. record r { ip = ip; port = port; updated_at = t.now }) db.contacts;
}

unfoldable pub set_blocked : ℕ → Bool → Database → Database
set_blocked id blocked db = record db {
  contacts =
      update (has_id id) (λ r. record r { is_blocked = if blocked then 1 else 0 }) db.contacts;
}
