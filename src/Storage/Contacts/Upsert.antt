-- ===== src/Storage/Contacts/Upsert.antt =====
-- upsert against find_by_public_key: a contact is known by its key, and keeps its id, its block and
-- its creation time.
use mathlib.Core.Option
use local_messenger.Common.{
  ◌^◌, ◌<◌, ◌≡◌, refl, ap, ite, List, [], ◌∷◌, ◌++◌, Option, none, some, Bytes, Bytes-discrete,
  Option-cases, inl, inr, arith,
}
use local_messenger.Storage.{ContactRow, Database, Stamp}
use local_messenger.Storage.Sql.{select_one, update}
use local_messenger.Storage.Contacts.{
  Contact, row_to_contact, inserted, overwritten, has_key, insert_or_update, upsert,
  find_by_public_key,
}

-- The contact that a key has after an upsert of `c`, by the contact that it had.
abbrev pub merged : Stamp → Contact → Option Contact → Contact
merged t c none = record c { id = t.rowid; created_at = t.now; updated_at = t.now }
merged t c (some old) = record old {
  username = c.username;
  ip = c.ip;
  port = c.port;
  fingerprint = c.fingerprint;
  avatar_path = c.avatar_path;
  updated_at = t.now;
}

pub row_to_contact-inserted :
    (t : Stamp) (c : Contact) → c.port < 2 ^ 16 → row_to_contact (inserted t c) ≡ merged t c none
unfolding row_to_contact inserted
row_to_contact-inserted t c h = ground arith

row_to_contact-overwritten :
    (t : Stamp) (c : Contact) (r : ContactRow)
    → c.port < 2 ^ 16
    → row_to_contact (overwritten t c r) ≡ merged t c (some (row_to_contact r))
unfolding row_to_contact overwritten
row_to_contact-overwritten t c r h = ground arith

select_one-update :
    (k j : Bytes) (f : ContactRow → ContactRow) (rows : List ContactRow)
    → ((r : ContactRow) → (f r).public_key ≡ r.public_key)
    → select_one (has_key k) (update (has_key j) f rows)
      ≡ ite
          (Bytes-discrete j k)
          (Option.map f (select_one (has_key k) rows))
          (select_one (has_key k) rows)
unfolding select_one update
select_one-update k j f [] keep = ground arith
select_one-update k j f (r ∷ rows) keep = ground (arith, keep r, select_one-update k j f rows keep)

inserted-find :
    (t : Stamp) (c : Contact) (k : Bytes) (rows : List ContactRow)
    → select_one (has_key c.public_key) rows ≡ none
    → select_one (has_key k) (rows ++ (inserted t c ∷ []))
      ≡ ite (Bytes-discrete c.public_key k) (some (inserted t c)) (select_one (has_key k) rows)
unfolding select_one inserted
inserted-find t c k [] e = ground arith
inserted-find t c k (r ∷ rows) e = ground (arith, inserted-find t c k rows)

same_key :
    (j k : Bytes) (rows : List ContactRow)
    → j ≡ k
    → select_one (has_key j) rows ≡ select_one (has_key k) rows
same_key j k rows e = ap (λ x. select_one (has_key x) rows) e

overwritten-public_key :
    (t : Stamp) (c : Contact) (r : ContactRow) → (overwritten t c r).public_key ≡ r.public_key
unfolding overwritten
overwritten-public_key t c r = refl

-- After an upsert of a contact with a port below 2 ^ 16, its key has the merged contact: the new one
-- with the id and the time of the statement, or, where the key was known, the old one with the new
-- name, address, fingerprint, avatar and time of update, and with its id, its block and its creation
-- time as they were. Every other key has what it had.
pub find_by_public_key-upsert :
    (t : Stamp) (c : Contact) (k : Bytes) (db : Database)
    → c.port < 2 ^ 16
    → find_by_public_key k (upsert t c db).0
      ≡ ite
          (Bytes-discrete c.public_key k)
          (some (merged t c (find_by_public_key k db)))
          (find_by_public_key k db)
unfolding find_by_public_key upsert
find_by_public_key-upsert t c k db h =
    elim (Option-cases (select_one (has_key c.public_key) db.contacts)) [
      | inl e ↦
          rw (e, insert_or_update)
            (ground (
              arith,
              inserted-find t c k db.contacts e,
              same_key c.public_key k db.contacts,
              row_to_contact-inserted t c h,
            ))
      | inr (r, e) ↦
          rw (e, insert_or_update)
            (ground (
              arith,
              select_one-update k c.public_key (overwritten t c) db.contacts
                  (overwritten-public_key t c),
              same_key c.public_key k db.contacts,
              row_to_contact-overwritten t c r h,
            ))
    ]
