-- ===== src/Storage/Integrity/Statements.antt =====
-- Any statements, one after the other.
use local_messenger.Common.{some, ℕ, ◌<◌, ◌^◌, ◌≡◌, subst, sym, Bool, Bytes}
use local_messenger.Storage.{Database, Stamp, ok, new_database, open_database}
use local_messenger.Storage.Contacts.{Contact, upsert, remove, update_address, set_blocked}
use local_messenger.Storage.Messages.{Message, MessageStatus, insert, update_status, mark_all_read}
use local_messenger.Storage.Settings.{set_value}
use local_messenger.Storage.Integrity.Steps.{
  IsValid, IsFreshContact, IsFreshMessage, new_database-IsValid, upsert-IsValid, remove-IsValid,
  insert-IsValid, update_address-IsValid, set_blocked-IsValid, update_status-IsValid,
  mark_all_read-IsValid, set_value-IsValid, open_database-IsValid,
}

-- A statement of a repository or of the settings that changes the database and that SQLite does not
-- refuse, or a new start on the file. The ports are of type uint16_t.
pub data Step (db db' : Database) : Type 0 where
  upserts :
      (t : Stamp) (c : Contact)
      → IsFreshContact t db
      → c.port < 2 ^ 16
      → db' ≡ (upsert t c db).0
      → Step db db'
  removes : (id : ℕ) → remove id db ≡ ok db' → Step db db'
  updates_address :
      (t : Stamp) (id port : ℕ) (ip : Bytes)
      → port < 2 ^ 16
      → db' ≡ update_address t id ip port db
      → Step db db'
  sets_blocked : (id : ℕ) (blocked : Bool) → db' ≡ set_blocked id blocked db → Step db db'
  inserts :
      (t : Stamp) (m : Message) (id : ℕ)
      → IsFreshMessage t db
      → insert t m db ≡ ok (db', id)
      → Step db db'
  updates_status :
      (uuid : Bytes) (status : MessageStatus) → db' ≡ update_status uuid status db → Step db db'
  marks_all_read : (contact_id : ℕ) → db' ≡ mark_all_read contact_id db → Step db db'
  reopens : db' ≡ open_database (some db) → Step db db'
  sets_value : (key value : Bytes) → db' ≡ set_value key value db → Step db db'

pub data Run (db : Database) : Database → Type 0 where
  here : Run db db
  next : {d e : Database} → Run db d → Step d e → Run db e

Step-IsValid : {d e : Database} → Step d e → IsValid d → IsValid e
Step-IsValid {d} {e} (upserts t c fresh small h) v =
    subst IsValid (sym h) (upsert-IsValid t c d fresh v)
Step-IsValid {d} {e} (removes id h) v = remove-IsValid id d e h v
Step-IsValid {d} {e} (updates_address t id port ip small h) v =
    subst IsValid (sym h) (update_address-IsValid t id port ip d v)
Step-IsValid {d} {e} (sets_blocked id blocked h) v =
    subst IsValid (sym h) (set_blocked-IsValid id blocked d v)
Step-IsValid {d} {e} (inserts t m id fresh h) v = insert-IsValid t m d e id fresh h v
Step-IsValid {d} {e} (updates_status uuid status h) v =
    subst IsValid (sym h) (update_status-IsValid uuid status d v)
Step-IsValid {d} {e} (marks_all_read contact_id h) v =
    subst IsValid (sym h) (mark_all_read-IsValid contact_id d v)
Step-IsValid {d} {e} (reopens h) v = subst IsValid (sym h) (open_database-IsValid d v)
Step-IsValid {d} {e} (sets_value key value h) v =
    subst IsValid (sym h) (set_value-IsValid key value d v)

-- From a new database, whatever statements run, over any number of starts: the ids of both tables ascend and are bounded by the
-- largest id ever given, no two contacts share a public key, and the contact of each message is
-- there.
pub Run-IsValid : {db : Database} → Run new_database db → IsValid db
Run-IsValid here = new_database-IsValid
Run-IsValid (next run step) = Step-IsValid step (Run-IsValid run)
