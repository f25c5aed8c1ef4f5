-- ===== src/Storage/Messages/Latest.antt =====
-- The message that was stored last.
use mathlib.Core.Option
use mathlib.Core.Logic.Or
use native.Mathlib.Nat.{ℕ_set}
use mathlib.Core.List.{
  Mem, mem-append, mem-append_right, mem-cons_self, not-mem-nil, eq-or-mem_of_mem-cons,
}
use local_messenger.Common.{ℕ, ◌<◌, ◌≡◌, refl, ap, subst, ◌∙◌, List, [], ◌∷◌, ◌++◌, some, arith}
use local_messenger.Storage.{MessageRow, Database, Stamp, ok}
use local_messenger.Storage.Sql.{OrderBy, head, select}
use local_messenger.Storage.Sql.Newest.{sort-head_newest, select_sub, select_holds}
use local_messenger.Storage.Messages.Stored.{insert-eq-ok}
use local_messenger.Storage.Messages.{
  Message, created, of_contact, message_row, with_message, row_to_message, insert, last_message,
}
use local_messenger.Storage.Messages.Insert.{IsMessage, row_to_message-message_row}

MessageRow-IsSet : IsSet MessageRow
MessageRow-IsSet = hlevel

select-append :
    (i : ℕ) (r : MessageRow) (rows : List MessageRow)
    → r.contact_id ≡ i
    → select (of_contact i) (rows ++ (r ∷ [])) ≡ select (of_contact i) rows ++ (r ∷ [])
unfolding select
select-append i r [] e = ground arith
select-append i r (x ∷ rows) e = ground (arith, select-append i r rows e)

-- Every message to or from the contact is older than `time`.
abbrev pub AreOlder : ℕ → ℕ → Database → Type 0
AreOlder i time db = (x : MessageRow) → Mem x db.messages → x.contact_id ≡ i → x.created_at < time

latest_row :
    (newest : OrderBy created) (i : ℕ) (r : MessageRow) (db : Database)
    → r.contact_id ≡ i
    → AreOlder i r.created_at db
    → head (newest.sort (select (of_contact i) (db.messages ++ (r ∷ [])))) ≡ some r
latest_row newest i r db e older =
    let rows : List MessageRow = select (of_contact i) db.messages in
    let (c, first, newer, there) =
      sort-head_newest newest (rows ++ (r ∷ [])) r (mem-append_right rows mem-cons_self) in
    let same : c ≡ r =
      Or.elim (MessageRow-IsSet c r) (mem-append.0 there)
        (λ old.
          let before : c.created_at < r.created_at =
            older c (select_sub (of_contact i) c db.messages old)
              (select_holds (of_contact i) c db.messages (ℕ_set c.contact_id i) old) in
          absurd (omega arith))
        (λ last.
          Or.elim (MessageRow-IsSet c r) (eq-or-mem_of_mem-cons last) (λ k. k)
            (λ k. absurd (not-mem-nil k))) in
    ap (λ l. head (newest.sort l)) (select-append i r db.messages e) ∙ first ∙ ap some same

-- A message that is stored later than all others of its contact is the contact's last message, with
-- all that it was given, its id and its time.
pub last_message-insert :
    (newest : OrderBy created) (t : Stamp) (m : Message) (db db' : Database) (id : ℕ)
    → IsMessage m
    → AreOlder m.contact_id t.now db
    → insert t m db ≡ ok (db', id)
    → last_message newest m.contact_id db' ≡ some (record m { id = t.rowid; created_at = t.now })
unfolding last_message
last_message-insert newest t m db db' id v older done =
    let (s, known, same, given) = insert-eq-ok t m db db' id done in
    let latest : head
          (newest.sort (select (of_contact m.contact_id) (with_message t m db).messages))
        ≡ some (message_row t m) =
      unfold message_row in latest_row newest m.contact_id (message_row t m) db refl older in
    subst
      (λ d.
        last_message newest m.contact_id d ≡ some (record m { id = t.rowid; created_at = t.now }))
      same (ap (Option.map row_to_message) latest ∙ ap some (row_to_message-message_row t m v))
