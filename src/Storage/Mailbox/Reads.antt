-- ===== src/Storage/Mailbox/Reads.antt =====
-- What the repository reads, from the mailbox.
use mathlib.Core.Option
use mathlib.Core.List.{Perm, Pairwise}
use local_messenger.Common.{
  ℕ, ◌≤◌, ◌≡◌, refl, ap, subst, List, [], ◌∷◌, map, length, length-map, Bytes, arith,
}
use local_messenger.Storage.{MessageRow, Database, new_database}
use local_messenger.Storage.Sql.{OrderBy, select, select_one}
use local_messenger.Storage.Messages.{
  row_to_message, direction_of, status_of, created, of_contact, has_uuid, is_unread, get_by_contact,
  find_by_uuid, unread_count,
}
use local_messenger.Storage.Messages.Pages.{get_by_contact_rises}
use local_messenger.Storage.Messages.Scroll.{get_by_contact_whole}
use local_messenger.Storage.Integrity.{Run}
use local_messenger.Storage.Mailbox.{Mailbox, first_with, unread_in, chat_of, replay, AllTyped}
use local_messenger.Storage.Mailbox.Statements.{mailbox, Run-mailbox}

-- What the rows give to a reader.
first_rows :
    (uuid : Bytes) (rows : List MessageRow)
    → Option.map row_to_message (select_one (has_uuid uuid) rows)
      ≡ first_with uuid (map row_to_message rows)
unfolding select_one row_to_message
first_rows uuid [] = refl
first_rows uuid (r ∷ rows) = ground (arith, first_rows uuid rows)

unread_rows :
    (contact_id : ℕ) (rows : List MessageRow)
    → length (select (is_unread contact_id) rows) ≡ unread_in contact_id (map row_to_message rows)
unfolding select row_to_message direction_of status_of
unread_rows contact_id [] = refl
unread_rows contact_id (r ∷ rows) = ground (arith, unread_rows contact_id rows)

chat_rows-chat_of :
    (contact_id : ℕ) (rows : List MessageRow)
    → map row_to_message (select (of_contact contact_id) rows)
      ≡ chat_of contact_id (map row_to_message rows)
unfolding select row_to_message
chat_rows-chat_of contact_id [] = refl
chat_rows-chat_of contact_id (r ∷ rows) = ground (arith, chat_rows-chat_of contact_id rows)

-- What the repository reads is what is in the mailbox: the first message with a UUID, the number of
-- unread messages of a contact, and all messages of a contact in order of time, each just once.
pub record Shows (db : Database) (box : Mailbox) : Type 0 where
  pub by_uuid : (uuid : Bytes) → find_by_uuid uuid db ≡ first_with uuid box
  pub unread : (contact_id : ℕ) → unread_count contact_id db ≡ unread_in contact_id box
  pub chat :
      (newest : OrderBy created) (contact_id limit : ℕ)
      → length (chat_of contact_id box) ≤ limit
      → Perm (get_by_contact newest contact_id limit 0 db) (chat_of contact_id box)
  pub in_order :
      (newest : OrderBy created) (contact_id limit offset : ℕ)
      → Pairwise
          (λ a b. a.created_at ≤ b.created_at)
          (get_by_contact newest contact_id limit offset db)

mailbox-Shows : (db : Database) → Shows db (mailbox db)
unfolding find_by_uuid unread_count
mailbox-Shows db = record {
  by_uuid = λ uuid. first_rows uuid db.messages;
  unread = λ contact_id. unread_rows contact_id db.messages;
  chat = λ newest contact_id limit room.
      subst (Perm (get_by_contact newest contact_id limit 0 db))
        (chat_rows-chat_of contact_id db.messages)
        (get_by_contact_whole newest contact_id limit db (
          omega (
            arith,
            room,
            ap length (chat_rows-chat_of contact_id db.messages),
            length-map (select (of_contact contact_id) db.messages) row_to_message,
          )));
  in_order =
      λ newest contact_id limit offset. get_by_contact_rises newest contact_id limit offset db;
}

-- After any run of statements on a new database, over any number of starts, where the enumerations
-- hold values of theirs: the repository shows what is in the mailbox when the same statements are
-- carried out on the mailbox, from the empty one on.
pub replay-Shows :
    {db : Database} (run : Run new_database db) → AllTyped run → Shows db (replay run)
replay-Shows {db} run v = subst (Shows db) (Run-mailbox run v) (mailbox-Shows db)
