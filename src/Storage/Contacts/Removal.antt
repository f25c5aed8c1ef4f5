-- ===== src/Storage/Contacts/Removal.antt =====
-- remove against the messages that refer to a contact.
use mathlib.Core.Option
use local_messenger.Common.{
  ℕ, ◌≡◌, ite, List, [], ◌∷◌, ◌++◌, none, some, ℕ_discrete, Option-cases, inl, inr, arith, subst,
}
use local_messenger.Storage.{ContactRow, MessageRow, Database, Stamp, ok, sql_error}
use local_messenger.Storage.Sql.{select_one, delete}
use local_messenger.Storage.Contacts.{
  row_to_contact, has_id, sent_to, delete_unless_referred, remove, find_by_id,
}
use local_messenger.Storage.Messages.Stored.{insert-eq-ok}
use local_messenger.Storage.Messages.{Message, message_row, insert}

select_one-delete :
    (k i : ℕ) (rows : List ContactRow)
    → select_one (has_id k) (delete (has_id i) rows)
      ≡ ite (ℕ_discrete i k) none (select_one (has_id k) rows)
unfolding select_one delete
select_one-delete k i [] = ground arith
select_one-delete k i (r ∷ rows) = ground (arith, select_one-delete k i rows)

-- After a remove that is not refused the contact is gone, and every other contact is as it was.
pub find_by_id-remove :
    (id k : ℕ) (db db' : Database)
    → remove id db ≡ ok db'
    → find_by_id k db' ≡ ite (ℕ_discrete id k) none (find_by_id k db)
unfolding find_by_id remove
find_by_id-remove id k db db' done = elim (Option-cases (select_one (sent_to id) db.messages)) [
  | inl e ↦
      let same : record db { contacts = delete (has_id id) db.contacts } ≡ db' =
        ground (arith, e, done) in
      subst
        (λ d.
          Option.map row_to_contact (select_one (has_id k) d.contacts)
          ≡ ite (ℕ_discrete id k) none
              (Option.map row_to_contact (select_one (has_id k) db.contacts)))
        same (ground (arith, select_one-delete k id db.contacts))
  | inr (m, e) ↦ ground (arith, e, done)
]

last_sent :
    (m : MessageRow) (rows : List MessageRow)
    → (n : MessageRow) × (select_one (sent_to m.contact_id) (rows ++ (m ∷ [])) ≡ some n)
unfolding select_one
last_sent m [] = (m, ground arith)
last_sent m (r ∷ rows) = elim (ℕ_discrete r.contact_id m.contact_id) [
  | yes e ↦ (r, ground (arith, e))
  | no n ↦ let (f, g) = last_sent m rows in (f, ground (arith, g, n))
]

-- The contact of a message that was inserted cannot be removed.
pub remove-insert :
    (t : Stamp) (m : Message) (db db' : Database) (id : ℕ)
    → insert t m db ≡ ok (db', id)
    → remove m.contact_id db' ≡ sql_error
unfolding remove
remove-insert t m db db' id done =
    let (c, known, same, given) = insert-eq-ok t m db db' id done in
    let (n, found) = last_sent (message_row t m) db.messages in
    let found' : select_one (sent_to m.contact_id) (db.messages ++ (message_row t m ∷ []))
        ≡ some n =
      unfold message_row in found in
    subst (λ d. remove m.contact_id d ≡ sql_error) same
      (unfold remove in rw (found', delete_unless_referred))
