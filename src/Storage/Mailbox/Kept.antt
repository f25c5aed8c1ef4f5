-- ===== src/Storage/Mailbox/Kept.antt =====
-- The messages of a database, before and after its statements.
use mathlib.Core.List.{append-nil, append_assoc, map-append}
use local_messenger.Common.{◌≡◌, refl, sym, ap, ◌∙◌, List, [], ◌∷◌, ◌++◌, map}
use local_messenger.Storage.{MessageRow, Database, open_database}
use local_messenger.Storage.Sql.{select_one, map-update}
use local_messenger.Storage.Contacts.{has_key, sent_to, upsert, remove, update_address, set_blocked}
use local_messenger.Storage.Messages.{
  has_uuid, is_unread, message_row, update_status, mark_all_read,
}
use local_messenger.Storage.Messages.Stored.{insert-eq-ok}
use local_messenger.Storage.Settings.{set_value}
use local_messenger.Storage.Integrity.{
  Step, upserts, removes, updates_address, sets_blocked, inserts, updates_status, marks_all_read,
  reopens, sets_value, Run, here, next,
}
use local_messenger.Storage.Mailbox.Statements.{
  insert_or_update-messages, delete_unless_referred-messages,
}

-- A row without its status.
abbrev pub content_of : MessageRow → MessageRow
content_of r = record r { status = 0 }

abbrev rows_of : Database → List MessageRow
rows_of db = map content_of db.messages

-- The messages of the first database are those that the second begins with, but for their status.
abbrev pub Keeps : Database → Database → Type 0
Keeps d e =
    (later : List MessageRow) × (map content_of e.messages ≡ map content_of d.messages ++ later)

same-Keeps : (d e : Database) → map content_of e.messages ≡ map content_of d.messages → Keeps d e
same-Keeps d e same = ([], same ∙ sym (append-nil (map content_of d.messages)))

Keeps-trans : (d e f : Database) → Keeps d e → Keeps e f → Keeps d f
Keeps-trans d e f (l, u) (m, v) =
    (l ++ m, v ∙ ap (λ k. k ++ m) u ∙ append_assoc (map content_of d.messages) l m)

pub Step-Keeps : {d e : Database} → Step d e → Keeps d e
Step-Keeps {d} {e} (upserts t c fresh small h) = same-Keeps d e (
    ap rows_of h
    ∙ unfold upsert in
      ap (map content_of)
        (insert_or_update-messages t c d (select_one (has_key c.public_key) d.contacts)))
Step-Keeps {d} {e} (removes id h) = same-Keeps d e (
    ap (map content_of) (
      delete_unless_referred-messages id d e (select_one (sent_to id) d.messages)
        (unfold remove in h)))
Step-Keeps {d} {e} (updates_address t id ip port small h) =
    same-Keeps d e (unfold update_address in ap rows_of h)
Step-Keeps {d} {e} (sets_blocked id blocked h) = same-Keeps d e (unfold set_blocked in ap rows_of h)
Step-Keeps {d} {e} (inserts t m id fresh h) =
    let (c, known, same, given) = insert-eq-ok t m d e id h in
    (
      content_of (message_row t m) ∷ [],
      ap rows_of (sym same) ∙ map-append content_of d.messages (message_row t m ∷ []),
    )
Step-Keeps {d} {e} (updates_status uuid status h) = same-Keeps d e (
    ap rows_of h
    ∙ unfold update_status in map-update (has_uuid uuid) content_of _ d.messages (λ r. refl))
Step-Keeps {d} {e} (marks_all_read contact_id h) = same-Keeps d e (
    ap rows_of h
    ∙ unfold mark_all_read in map-update (is_unread contact_id) content_of _ d.messages (λ r. refl))
Step-Keeps {d} {e} (reopens h) = same-Keeps d e (unfold open_database in ap rows_of h)
Step-Keeps {d} {e} (sets_value key value h) = same-Keeps d e (unfold set_value in ap rows_of h)

pub Run-Keeps : {d e : Database} → Run d e → Keeps d e
Run-Keeps {d} here = same-Keeps d d refl
Run-Keeps {d} {e} (next {d = b} run step) = Keeps-trans d b e (Run-Keeps run) (Step-Keeps step)
