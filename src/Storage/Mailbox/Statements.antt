-- ===== src/Storage/Mailbox/Statements.antt =====
-- Each statement of the database, on the mailbox.
use mathlib.Core.List.{map-append}
use local_messenger.Common.{
  ℕ, ◌≡◌, refl, sym, ap, ◌∙◌, ite, List, [], ◌∷◌, ◌++◌, map, Option, none, some, Bytes, arith,
}
use local_messenger.Storage.{
  ContactRow, MessageRow, Database, Stamp, ok, new_database, open_database,
}
use local_messenger.Storage.Sql.{select_one, update}
use local_messenger.Storage.Contacts.{
  Contact, has_key, sent_to, upsert, insert_or_update, delete_unless_referred, remove,
  update_address, set_blocked,
}
use local_messenger.Storage.Messages.{
  Message, MessageStatus, row_to_message, direction_of, status_of, status_code, has_uuid, is_unread,
  message_row, update_status, mark_all_read,
}
use local_messenger.Storage.Messages.Stored.{insert-eq-ok}
use local_messenger.Storage.Messages.Insert.{row_to_message-message_row}
use local_messenger.Storage.Settings.{set_value}
use local_messenger.Storage.Integrity.{
  Step, upserts, removes, updates_address, sets_blocked, inserts, updates_status, marks_all_read,
  reopens, sets_value, Run, here, next,
}
use local_messenger.Storage.Mailbox.{Mailbox, restatus, mark, act, replay, IsTyped, AllTyped}

-- All messages of the table.
abbrev pub mailbox : Database → Mailbox
mailbox db = map row_to_message db.messages

map_rows-update :
    {P : MessageRow → Type 0} (d : (r : MessageRow) → Dec (P r)) (f : MessageRow → MessageRow)
    (g : Message → Message) (rows : List MessageRow)
    → ((r : MessageRow) → row_to_message (ite (d r) (f r) r) ≡ g (row_to_message r))
    → map row_to_message (update d f rows) ≡ map g (map row_to_message rows)
unfolding update
map_rows-update d f g [] same = refl
map_rows-update d f g (r ∷ rows) same =
    ap (λ m. m ∷ map row_to_message (update d f rows)) (same r)
    ∙ ap (λ l. g (row_to_message r) ∷ l) (map_rows-update d f g rows same)

restatus_row :
    (uuid : Bytes) (status : MessageStatus) (r : MessageRow)
    → status_of (status_code status) ≡ status
    → row_to_message (ite (has_uuid uuid r) (record r { status = status_code status }) r)
      ≡ restatus uuid status (row_to_message r)
unfolding row_to_message
restatus_row uuid status r e = ground (arith, e)

mark_row :
    (contact_id : ℕ) (r : MessageRow)
    → row_to_message (ite (is_unread contact_id r) (record r { status = 2 }) r)
      ≡ mark contact_id (row_to_message r)
unfolding row_to_message direction_of status_of
mark_row contact_id r = ground arith

pub insert_or_update-messages :
    (t : Stamp) (c : Contact) (d : Database) (o : Option ContactRow)
    → (insert_or_update t c d o).messages ≡ d.messages
unfolding insert_or_update
insert_or_update-messages t c d none = refl
insert_or_update-messages t c d (some r) = refl

pub delete_unless_referred-messages :
    (id : ℕ) (d e : Database) (o : Option MessageRow)
    → delete_unless_referred id d o ≡ ok e
    → e.messages ≡ d.messages
unfolding delete_unless_referred
delete_unless_referred-messages id d e none h = ground (arith, h)
delete_unless_referred-messages id d e (some m) h = ground (arith, h)

act_refines : {d e : Database} (step : Step d e) → IsTyped step → mailbox e ≡ act step (mailbox d)
act_refines {d} (upserts t c fresh small h) v =
    ap mailbox h
    ∙ unfold upsert in
      ap (map row_to_message)
        (insert_or_update-messages t c d (select_one (has_key c.public_key) d.contacts))
act_refines {d} {e} (removes id h) v = ap (map row_to_message) (
    delete_unless_referred-messages id d e (select_one (sent_to id) d.messages)
      (unfold remove in h))
act_refines (updates_address t id port ip small h) v = unfold update_address in ap mailbox h
act_refines (sets_blocked id blocked h) v = unfold set_blocked in ap mailbox h
act_refines {d} {e} (inserts t m id fresh h) v =
    let (c, known, same, given) = insert-eq-ok t m d e id h in
    ap mailbox (sym same)
    ∙ map-append row_to_message d.messages (message_row t m ∷ [])
    ∙ ap (λ x. mailbox d ++ (x ∷ [])) (row_to_message-message_row t m v)
act_refines {d} (updates_status uuid status h) v =
    ap mailbox h
    ∙ unfold update_status in
      map_rows-update (has_uuid uuid) _ (restatus uuid status) d.messages
        (λ r. restatus_row uuid status r v)
act_refines {d} (marks_all_read contact_id h) v =
    ap mailbox h
    ∙ unfold mark_all_read in
      map_rows-update (is_unread contact_id) _ (mark contact_id) d.messages (mark_row contact_id)
act_refines (reopens h) v = unfold open_database in ap mailbox h
act_refines (sets_value key value h) v = unfold set_value in ap mailbox h

pub Run-mailbox :
    {db : Database} (run : Run new_database db) → AllTyped run → mailbox db ≡ replay run
unfolding new_database
Run-mailbox here v = refl
Run-mailbox (next run step) v = act_refines step v.1 ∙ ap (act step) (Run-mailbox run v.0)
