-- ===== src/Storage/Messages/Stored.antt =====
-- What insert does where it is not refused.
use local_messenger.Common.{ℕ, ◌≡◌, some, Option-cases, inl, inr, arith}
use local_messenger.Storage.{ContactRow, Database, Stamp, ok}
use local_messenger.Storage.Sql.{select_one}
use local_messenger.Storage.Contacts.{has_id}
use local_messenger.Storage.Messages.{Message, with_message, insert, insert_for}

module _ (t : Stamp) (m : Message) (db : Database) where
  pub insert_stores :
      (c : ContactRow)
      → select_one (has_id m.contact_id) db.contacts ≡ some c
      → insert t m db ≡ ok (with_message t m db, t.rowid)
  unfolding insert
  insert_stores c known = rw (known, insert_for)

  pub insert-eq-ok :
      (db' : Database) (id : ℕ)
      → insert t m db ≡ ok (db', id)
      → (c : ContactRow) × (select_one (has_id m.contact_id) db.contacts ≡ some c)
        × (with_message t m db ≡ db')
        × (t.rowid ≡ id)
  unfolding insert
  insert-eq-ok db' id done = elim (Option-cases (select_one (has_id m.contact_id) db.contacts)) [
    | inl e ↦ ground (arith, e, done)
    | inr (c, e) ↦ (c, e, ground (arith, e, done), ground (arith, e, done))
  ]
