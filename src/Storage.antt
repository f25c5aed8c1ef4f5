-- ===== src/Storage.antt =====
-- src/storage: the SQLite database and the repositories over it.
--
-- A table is the list of its rows. A row's id and the current time are inputs of the statements that
-- need them (`Stamp`): AUTOINCREMENT gives an id above every id that the table ever had, which is
-- the hypothesis IsFresh where a theorem needs it. A time is a number of seconds; the text that
-- `datetime('now')` gives has one second as its step and sorts as the times do. A statement that
-- SQLite refuses throws, which is `sql_error`.
pub mod Sql
pub mod Contacts
pub mod Messages
pub mod Settings
pub mod Integrity
pub mod Book
pub mod Mailbox
pub mod Sorting
pub mod Sample
mod Examples
use local_messenger.Common.{ℕ, List, [], Option, none, some, Bytes}
use local_messenger.Common.Map.{Map}

-- The columns of `contacts`; `is_blocked` is 0 or 1.
pub record ContactRow : Type 0 where
  pub id : ℕ
  pub username : Bytes
  pub ip : Bytes
  pub port : ℕ
  pub public_key : Bytes
  pub fingerprint : Bytes
  pub avatar_path : Bytes
  pub is_blocked : ℕ
  pub created_at : ℕ
  pub updated_at : ℕ

-- The columns of `messages`; `encrypted` may be NULL.
pub record MessageRow : Type 0 where
  pub id : ℕ
  pub contact_id : ℕ
  pub direction : ℕ
  pub msg_type : ℕ
  pub content : Bytes
  pub encrypted : Option Bytes
  pub status : ℕ
  pub msg_uuid : Bytes
  pub created_at : ℕ

-- `contact_seq` and `message_seq` are the largest ids that the tables ever had.
pub record Database : Type 0 where
  pub contacts : List ContactRow
  pub contact_seq : ℕ
  pub messages : List MessageRow
  pub message_seq : ℕ
  pub settings : Map Bytes
  pub last_insert_rowid : ℕ

-- The database after the first `migrate`.
unfoldable pub new_database : Database
new_database = record {
  contacts = [];
  contact_seq = 0;
  messages = [];
  message_seq = 0;
  settings = [];
  last_insert_rowid = 0;
}

-- Opening the file: `migrate` makes the tables that are not there, and leaves the others as they are.
-- The last row id is the connection's, and is 0 in a new one.
unfoldable pub open_database : Option Database → Database
unfolding new_database
open_database none = new_database
open_database (some db) = record db { last_insert_rowid = 0 }

pub record Stamp : Type 0 where
  pub now : ℕ
  pub rowid : ℕ

pub data Result {ℓ} (A : Type ℓ) : Type ℓ where
  ok : A → Result A
  sql_error : Result A
