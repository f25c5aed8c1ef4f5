-- ===== src/Storage/Mailbox/Examples.antt =====
-- A message comes in from a contact, is delivered, and is read after a new start.
use local_messenger.Common.{◌≡◌, refl, [], ◌∷◌, some, Bytes-discrete, codes, ℕ_discrete, arith}
use local_messenger.Storage.{Database, new_database, open_database}
use local_messenger.Storage.Sql.{select_one}
use local_messenger.Storage.Sample.{moved_alice, to_alice}
use local_messenger.Storage.Contacts.{upsert, inserted}
use local_messenger.Storage.Messages.{
  Message, incoming, delivered, insert, message_row, update_status, mark_all_read, direction_of,
  direction_code, msg_type_of, msg_type_code, status_of, status_code,
}
use local_messenger.Storage.Integrity.{
  Run, here, next, upserts, inserts, updates_status, marks_all_read, reopens,
}
use local_messenger.Storage.Mailbox.{AllTyped, unread_in, replay}
use local_messenger.Storage.Mailbox.Reads.{Shows, replay-Shows}

abbrev from_alice : Message
from_alice = record to_alice { direction = incoming }

abbrev one_contact : Database
one_contact = record new_database {
  contacts = inserted (record { now = 5; rowid = 1 }) moved_alice ∷ [];
  contact_seq = 1;
  last_insert_rowid = 1;
}

abbrev one_message : Database
one_message = record one_contact {
  messages = message_row (record { now = 6; rowid = 1 }) from_alice ∷ [];
  message_seq = 1;
}

abbrev one_delivered : Database
one_delivered = update_status (codes "u3") delivered one_message

abbrev one_read : Database
one_read = mark_all_read 1 (open_database (some one_delivered))

delivered-Run : Run new_database one_delivered
unfolding new_database upsert insert select_one ℕ_discrete inserted
delivered-Run =
    next
      (next
        (next here
          (upserts (record { now = 5; rowid = 1 }) moved_alice (omega arith) (omega arith) refl))
        (inserts (record { now = 6; rowid = 1 }) from_alice 1 (omega arith) refl))
      (updates_status (codes "u3") delivered refl)

read-Run : Run new_database one_read
read-Run = next (next delivered-Run (reopens refl)) (marks_all_read 1 refl)

read-AllTyped : AllTyped read-Run
unfolding read-Run delivered-Run direction_of direction_code msg_type_of msg_type_code status_of
    status_code
read-AllTyped =
    (((((tt, tt), record { direction = refl; msg_type = refl; status = refl }), refl), tt), tt)

replay-Shows_example : Shows one_read (replay read-Run)
replay-Shows_example = replay-Shows read-Run read-AllTyped

-- The message waits until it is read.
delivered_waits : unread_in 1 (replay delivered-Run) ≡ 1
unfolding delivered-Run Bytes-discrete
delivered_waits = refl

read_done : unread_in 1 (replay read-Run) ≡ 0
unfolding read-Run delivered-Run Bytes-discrete
read_done = refl
