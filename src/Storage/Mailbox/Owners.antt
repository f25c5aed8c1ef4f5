-- ===== src/Storage/Mailbox/Owners.antt =====
-- The contact of a message, before and after the statements of the database.
use mathlib.Core.Option
use mathlib.Core.List.{map-append}
use local_messenger.Common.{
  ℕ, ◌≡◌, ◌≢◌, refl, sym, ap, subst, ◌∙◌, true, List, [], ◌∷◌, ◌++◌, map, Option, none, some, Bytes,
  arith,
}
use local_messenger.Storage.{ContactRow, MessageRow, Database, Stamp, ok, open_database}
use local_messenger.Storage.Sql.{select_one, update, delete}
use local_messenger.Storage.Contacts.{
  Contact, has_key, has_id, sent_to, inserted, overwritten, insert_or_update,
  delete_unless_referred, upsert, remove, update_address, set_blocked,
}
use local_messenger.Storage.Messages.{update_status, mark_all_read}
use local_messenger.Storage.Messages.Stored.{insert-eq-ok}
use local_messenger.Storage.Settings.{set_value}
use local_messenger.Storage.Integrity.{
  contains, contains-append, Step, upserts, removes, updates_address, sets_blocked, inserts,
  updates_status, marks_all_read, reopens, sets_value, Run, here, next,
}
use local_messenger.Storage.Mailbox.Kept.{content_of, Keeps, Step-Keeps}

-- The public key of a contact, by its id.
abbrev pub key_of : ℕ → List ContactRow → Option Bytes
key_of id rows = Option.map (λ r. r.public_key) (select_one (has_id id) rows)

abbrev contact_ids : List MessageRow → List ℕ
contact_ids rows = map (λ m. m.contact_id) rows

-- A message refers to the contact.
abbrev pub IsReferred : ℕ → Database → Type 0
IsReferred id db = contains id (contact_ids db.messages) ≡ true

-- A contact with messages has the key that it had.
abbrev pub IsOwned : ℕ → Bytes → Database → Type 0
IsOwned id key db = IsReferred id db × (key_of id db.contacts ≡ some key)

key_of-update :
    {P : ContactRow → Type 0} (d : (r : ContactRow) → Dec (P r)) (f : ContactRow → ContactRow)
    (id : ℕ) (rows : List ContactRow)
    → ((r : ContactRow) → (f r).id ≡ r.id)
    → ((r : ContactRow) → (f r).public_key ≡ r.public_key)
    → key_of id (update d f rows) ≡ key_of id rows
unfolding update select_one
key_of-update d f id [] same_id same_key = refl
key_of-update d f id (r ∷ rows) same_id same_key =
    ground (arith, key_of-update d f id rows same_id same_key, same_id r, same_key r)

key_of-append :
    (id : ℕ) (key : Bytes) (rows later : List ContactRow)
    → key_of id rows ≡ some key
    → key_of id (rows ++ later) ≡ some key
unfolding select_one
key_of-append id key [] later e = cc
key_of-append id key (r ∷ rows) later e = ground (arith, key_of-append id key rows later, e)

key_of-delete :
    (id k : ℕ) (rows : List ContactRow)
    → id ≢ k
    → key_of id (delete (has_id k) rows) ≡ key_of id rows
unfolding select_one delete
key_of-delete id k [] other = refl
key_of-delete id k (r ∷ rows) other = ground (arith, key_of-delete id k rows other, other)

unreferred :
    (id k : ℕ) (rows : List MessageRow)
    → contains id (contact_ids rows) ≡ true
    → select_one (sent_to k) rows ≡ none
    → id ≢ k
unfolding contains select_one
unreferred id k [] e f = cc
unreferred id k (m ∷ rows) e f = λ same. ground (arith, unreferred id k rows, e, f, same)

contact_ids-content_of :
    (rows : List MessageRow) → contact_ids (map content_of rows) ≡ contact_ids rows
contact_ids-content_of [] = refl
contact_ids-content_of (m ∷ rows) = ap (λ l. m.contact_id ∷ l) (contact_ids-content_of rows)

Keeps-IsReferred : (id : ℕ) (d e : Database) → Keeps d e → IsReferred id d → IsReferred id e
Keeps-IsReferred id d e (later, same) referred =
    let grown : contact_ids e.messages ≡ contact_ids d.messages ++ contact_ids later =
      sym (contact_ids-content_of e.messages)
      ∙ ap contact_ids same
      ∙ map-append (λ m. m.contact_id) (map content_of d.messages) later
      ∙ ap (λ l. l ++ contact_ids later) (contact_ids-content_of d.messages) in
    subst (λ l. contains id l ≡ true) (sym grown)
      (contains-append id (contact_ids d.messages) (contact_ids later) referred)

insert_or_update-owner :
    (id : ℕ) (key : Bytes) (t : Stamp) (c : Contact) (d : Database) (o : Option ContactRow)
    → key_of id d.contacts ≡ some key
    → key_of id (insert_or_update t c d o).contacts ≡ some key
unfolding insert_or_update
insert_or_update-owner id key t c d none e = key_of-append id key d.contacts (inserted t c ∷ []) e
insert_or_update-owner id key t c d (some r) e =
    unfold overwritten in
    (key_of-update (has_key c.public_key) (overwritten t c) id d.contacts (λ r. refl) (λ r. refl)
      ∙ e)

remove-owner :
    (id k : ℕ) (key : Bytes) (d e : Database) (o : Option MessageRow)
    → select_one (sent_to k) d.messages ≡ o
    → delete_unless_referred k d o ≡ ok e
    → IsOwned id key d
    → key_of id e.contacts ≡ some key
unfolding delete_unless_referred
remove-owner id k key d e none free h (referred, v) =
    subst (λ l. key_of id l ≡ some key) (ground (arith, h))
      (key_of-delete id k d.contacts (unreferred id k d.messages referred free) ∙ v)
remove-owner id k key d e (some m) free h (referred, v) = cc

Step-owner :
    (id : ℕ) (key : Bytes) {d e : Database}
    → Step d e
    → IsOwned id key d
    → key_of id e.contacts ≡ some key
Step-owner id key {d} (upserts t c fresh small h) v =
    ap (λ b. key_of id b.contacts) h
    ∙ unfold upsert in
      insert_or_update-owner id key t c d (select_one (has_key c.public_key) d.contacts) v.1
Step-owner id key {d} {e} (removes k h) v =
    remove-owner id k key d e (select_one (sent_to k) d.messages) refl (unfold remove in h) v
Step-owner id key {d} (updates_address t k port ip small h) v =
    ap (λ b. key_of id b.contacts) h
    ∙ unfold update_address in
      (key_of-update (has_id k) _ id d.contacts (λ r. refl) (λ r. refl) ∙ v.1)
Step-owner id key {d} (sets_blocked k blocked h) v =
    ap (λ b. key_of id b.contacts) h
    ∙ unfold set_blocked in (key_of-update (has_id k) _ id d.contacts (λ r. refl) (λ r. refl) ∙ v.1)
Step-owner id key {d} {e} (inserts t m i fresh h) v =
    let (c, known, same, given) = insert-eq-ok t m d e i h in
    ap (λ b. key_of id b.contacts) (sym same) ∙ v.1
Step-owner id key (updates_status uuid status h) v =
    ap (λ b. key_of id b.contacts) h ∙ unfold update_status in v.1
Step-owner id key (marks_all_read k h) v =
    ap (λ b. key_of id b.contacts) h ∙ unfold mark_all_read in v.1
Step-owner id key (reopens h) v = ap (λ b. key_of id b.contacts) h ∙ unfold open_database in v.1
Step-owner id key (sets_value k value h) v =
    ap (λ b. key_of id b.contacts) h ∙ unfold set_value in v.1

pub Run-IsOwned :
    (id : ℕ) (key : Bytes) {d e : Database} → Run d e → IsOwned id key d → IsOwned id key e
Run-IsOwned id key here v = v
Run-IsOwned id key {d} {e} (next {d = b} run step) v =
    let w : IsOwned id key b = Run-IsOwned id key run v in
    (Keeps-IsReferred id b e (Step-Keeps step) w.0, Step-owner id key step w)
