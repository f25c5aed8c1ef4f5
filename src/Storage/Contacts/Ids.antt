-- ===== src/Storage/Contacts/Ids.antt =====
-- The id that upsert returns.
use mathlib.Core.Option
use local_messenger.Common.{
  ℕ, ◌^◌, ◌<◌, ◌≤◌, ◌≡◌, ap, subst, ◌∙◌, List, [], ◌∷◌, ◌++◌, none, some, arith,
}
use local_messenger.Storage.{ContactRow, Database, Stamp, ok}
use local_messenger.Storage.Sql.{select_one, none_of_map, some_of_map}
use local_messenger.Storage.Contacts.{
  Contact, row_to_contact, inserted, has_id, insert_or_update, upsert, find_by_id,
  find_by_public_key,
}
use local_messenger.Storage.Contacts.Upsert.{merged, row_to_contact-inserted}
use local_messenger.Storage.Messages.Stored.{insert-eq-ok}
use local_messenger.Storage.Messages.{Message, insert}
use local_messenger.Storage.Integrity.{Ascends, IsValid, IsFreshContact, ids}

Ascends-le : (lo hi : ℕ) (is : List ℕ) → Ascends lo is hi → lo ≤ hi
Ascends-le lo hi [] a = a
Ascends-le lo hi (i ∷ is) a = omega (arith, Ascends-le i hi is a.1, a.0)

last_by_id :
    (lo hi : ℕ) (r : ContactRow) (rows : List ContactRow)
    → Ascends lo (ids rows) hi
    → hi < r.id
    → select_one (has_id r.id) (rows ++ (r ∷ [])) ≡ some r
unfolding select_one
last_by_id lo hi r [] a h = ground arith
last_by_id lo hi r (x ∷ rows) a h =
    ground (arith, last_by_id x.id hi r rows a.1 h, Ascends-le x.id hi (ids rows) a.1)

-- In a valid database, upsert of a contact with a new key and a port below 2 ^ 16 returns the id
-- under which the new contact is then found.
pub find_by_id-upsert :
    (t : Stamp) (c : Contact) (db : Database)
    → IsValid db
    → IsFreshContact t db
    → c.port < 2 ^ 16
    → find_by_public_key c.public_key db ≡ none
    → find_by_id (upsert t c db).1 (upsert t c db).0 ≡ some (merged t c none)
unfolding find_by_public_key find_by_id upsert
find_by_id-upsert t c db v fresh h unknown =
    rw (none_of_map row_to_contact _ unknown, insert_or_update)
      (ap (Option.map row_to_contact) (
          unfold inserted in
          last_by_id 0 db.contact_seq (inserted t c) db.contacts v.contacts_ascend fresh)
        ∙ ap some (row_to_contact-inserted t c h))

-- When a message has been inserted and the key is known, upsert returns the message's id.
pub upsert-insert :
    (t u : Stamp) (c : Contact) (m : Message) (db db' : Database) (old : Contact) (id : ℕ)
    → find_by_public_key c.public_key db ≡ some old
    → insert t m db ≡ ok (db', id)
    → (upsert u c db').1 ≡ id
unfolding find_by_public_key
upsert-insert t u c m db db' old id known done =
    let (s, there, same, given) = insert-eq-ok t m db db' id done in
    let (r, found, is_old) = some_of_map row_to_contact _ known in
    subst (λ d. (upsert u c d).1 ≡ id) same (unfold upsert in rw (found, insert_or_update) given)
