-- ===== src/Storage/Mailbox.antt =====
-- The messages as one list that grows at its end, and what each statement does to it.
pub mod Statements
pub mod Reads
pub mod Kept
pub mod Owners
mod Examples
use local_messenger.Common.{
  ℕ, ◌+◌, ◌≡◌, ◌==◌, ◌&&◌, ite, Bool, true, false, if◌then◌else◌, List, [], ◌∷◌, ◌++◌, map, Option,
  none, some, Bytes, Bytes-discrete,
}
use local_messenger.Storage.{Database, new_database}
use local_messenger.Storage.Messages.{
  Message, MessageDirection, incoming, MessageStatus, sent, delivered, read, status_of, status_code,
}
use local_messenger.Storage.Messages.Insert.{IsMessage, with_status}
use local_messenger.Storage.Integrity.{
  Step, upserts, removes, updates_address, sets_blocked, inserts, updates_status, marks_all_read,
  reopens, sets_value, Run, here, next,
}

abbrev pub Mailbox : Type 0
Mailbox = List Message

abbrev pub comes_in : MessageDirection → Bool
comes_in incoming = true
comes_in _ = false

abbrev pub not_read : MessageStatus → Bool
not_read sent = true
not_read delivered = true
not_read _ = false

-- A message that came in from the contact and has not been read.
abbrev pub waits : ℕ → Message → Bool
waits contact_id m = m.contact_id == contact_id && (comes_in m.direction && not_read m.status)

abbrev pub first_with : Bytes → Mailbox → Option Message
first_with uuid [] = none
first_with uuid (m ∷ box) = ite (Bytes-discrete m.msg_uuid uuid) (some m) (first_with uuid box)

abbrev pub unread_in : ℕ → Mailbox → ℕ
unread_in contact_id [] = 0
unread_in contact_id (m ∷ box) = (if waits contact_id m then 1 else 0) + unread_in contact_id box

abbrev pub chat_of : ℕ → Mailbox → Mailbox
chat_of contact_id [] = []
chat_of contact_id (m ∷ box) =
    if m.contact_id == contact_id then m ∷ chat_of contact_id box else chat_of contact_id box

abbrev pub restatus : Bytes → MessageStatus → Message → Message
restatus uuid status m = ite (Bytes-discrete m.msg_uuid uuid) (with_status status m) m

abbrev pub mark : ℕ → Message → Message
mark contact_id m = if waits contact_id m then with_status read m else m

-- A statement on the mailbox: those on contacts and settings leave it as it is, and so does a new
-- start.
abbrev pub act : {d e : Database} → Step d e → Mailbox → Mailbox
act (upserts t c fresh small h) box = box
act (removes id h) box = box
act (updates_address t id port ip small h) box = box
act (sets_blocked id blocked h) box = box
act (inserts t m id fresh h) box = box ++ (record m { id = t.rowid; created_at = t.now } ∷ [])
act (updates_status uuid status h) box = map (restatus uuid status) box
act (marks_all_read contact_id h) box = map (mark contact_id) box
act (reopens h) box = box
act (sets_value key value h) box = box

-- All statements of a run, from the empty mailbox on.
abbrev pub replay : {db : Database} → Run new_database db → Mailbox
replay here = []
replay (next run step) = act step (replay run)

-- The enumerations of what the statement is given hold their own enumerators, or a number that is
-- none of them.
abbrev pub IsTyped : {d e : Database} → Step d e → Type 0
IsTyped (inserts t m id fresh h) = IsMessage m
IsTyped (updates_status uuid status h) = status_of (status_code status) ≡ status
IsTyped (upserts t c fresh small h) = Unit {0}
IsTyped (removes id h) = Unit {0}
IsTyped (updates_address t id port ip small h) = Unit {0}
IsTyped (sets_blocked id blocked h) = Unit {0}
IsTyped (marks_all_read contact_id h) = Unit {0}
IsTyped (reopens h) = Unit {0}
IsTyped (sets_value key value h) = Unit {0}

abbrev pub AllTyped : {db : Database} → Run new_database db → Type 0
AllTyped here = Unit {0}
AllTyped (next run step) = AllTyped run × IsTyped step
