-- ===== src/Storage/Examples.antt =====
-- Two contacts, three messages, and the settings of a user: the storage on concrete inputs.
use mathlib.Core.List.{List, Pairwise, Perm}
use local_messenger.Common.{
  ◌≤◌, length, ◌≡◌, refl, true, [], ◌∷◌, ◌++◌, some, Bytes-discrete, codes, ℕ_discrete, arith,
}
use local_messenger.Storage.{Database, ok, new_database, open_database}
use local_messenger.Storage.Sql.{select, select_one}
use local_messenger.Storage.Sample.{alice, two_contacts, now, moved_alice, to_alice}
use local_messenger.Storage.Sorting.{by_insertion}
use local_messenger.Storage.Contacts.{
  upsert, find_by_public_key, inserted, row_to_contact, set_blocked, update_address,
}
use local_messenger.Storage.Contacts.Upsert.{merged, find_by_public_key-upsert}
use local_messenger.Storage.Contacts.Ids.{upsert-insert}
use local_messenger.Storage.Messages.{insert, Message, search, created, message_row}
use local_messenger.Storage.Messages.Scroll.{chat_rows, scroll, get_by_contact-scroll}
use local_messenger.Storage.Integrity.{
  IsValid, Run, here, next, upserts, reopens, sets_blocked, updates_address, inserts, Run-IsValid,
}
use local_messenger.Storage.Messages.Search.{matching, search_complete}
use local_messenger.Storage.Book.{find_by_public_key-replay}

find_by_public_key-upsert_example :
    find_by_public_key (codes "aa") (upsert now moved_alice two_contacts).0
    ≡ some (merged now moved_alice (some (row_to_contact alice)))
unfolding find_by_public_key Bytes-discrete select_one
find_by_public_key-upsert_example =
    find_by_public_key-upsert now moved_alice (codes "aa") two_contacts (omega arith)

abbrev three_messages : Database
three_messages = record two_contacts {
  messages = two_contacts.messages ++ (message_row now to_alice ∷ []);
  message_seq = 3;
  last_insert_rowid = 3;
}

to_alice-insert : insert now to_alice two_contacts ≡ ok (three_messages, 3)
unfolding insert select_one ℕ_discrete
to_alice-insert = refl

upsert-insert_example : (upsert now moved_alice three_messages).1 ≡ 3
unfolding find_by_public_key select_one Bytes-discrete
upsert-insert_example =
    upsert-insert now now moved_alice to_alice two_contacts three_messages (row_to_contact alice) 3
      refl to_alice-insert

-- Alice's three messages, in pages of two.
get_by_contact-scroll_example :
    Perm (scroll (by_insertion created) 1 2 2 0 three_messages) (chat_rows 1 three_messages)
    × Pairwise
        (λ a b. a.created_at ≤ b.created_at)
        (scroll (by_insertion created) 1 2 2 0 three_messages)
unfolding select ℕ_discrete message_row
get_by_contact-scroll_example =
    get_by_contact-scroll (by_insertion created) 1 2 2 three_messages (omega arith)

-- A contact is entered, and then a message to it.
abbrev first_contact : Database
first_contact = record new_database {
  contacts = inserted (record { now = 5; rowid = 1 }) moved_alice ∷ [];
  contact_seq = 1;
  last_insert_rowid = 1;
}

abbrev first_message : Database
first_message = record first_contact {
  messages = message_row (record { now = 6; rowid = 1 }) to_alice ∷ [];
  message_seq = 1;
}

first_message-Run : Run new_database first_message
unfolding new_database upsert insert select_one ℕ_discrete inserted
first_message-Run =
    next
      (next here
        (upserts (record { now = 5; rowid = 1 }) moved_alice (omega arith) (omega arith) refl))
      (inserts (record { now = 6; rowid = 1 }) to_alice 1 (omega arith) refl)

Run-IsValid_example : IsValid first_message
Run-IsValid_example = Run-IsValid first_message-Run

-- A contact is entered and blocked, and after a new start it moves to another address.
abbrev entered : Database
entered = (upsert (record { now = 5; rowid = 1 }) moved_alice new_database).0

abbrev blocked : Database
blocked = set_blocked 1 true entered

abbrev moved : Database
moved =
    update_address (record { now = 7; rowid = 1 }) 1 (codes "26.0.0.3") 9
      (open_database (some blocked))

moved-Run : Run new_database moved
unfolding new_database
moved-Run =
    next
      (next
        (next
          (next here
            (upserts (record { now = 5; rowid = 1 }) moved_alice (omega arith) (omega arith) refl))
          (sets_blocked 1 true refl))
        (reopens refl))
      (updates_address (record { now = 7; rowid = 1 }) 1 9 (codes "26.0.0.3") (omega arith) refl)

find_by_public_key-replay_example :
    find_by_public_key (codes "aa") moved
    ≡ some (record moved_alice {
      id = 1;
      ip = codes "26.0.0.3";
      port = 9;
      is_blocked = true;
      created_at = 5;
      updated_at = 7;
    })
unfolding moved-Run Bytes-discrete
find_by_public_key-replay_example = find_by_public_key-replay moved-Run (codes "aa")

-- Three messages match, of which the newer two are asked for.
search_complete_example :
    let found : List Message =
      search (by_insertion created) (λ p s. true) (codes "hi") 2 three_messages in
    (rest : List Message) × Perm
      (found ++ rest)
      (matching (λ p s. true) (codes "hi") three_messages.messages)
    × Pairwise (λ a b. b.created_at ≤ a.created_at) (found ++ rest)
    × (length found ≡ 2)
search_complete_example =
    search_complete (λ p s. true) (codes "hi") (by_insertion created) 2 three_messages
