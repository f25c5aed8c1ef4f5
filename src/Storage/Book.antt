-- ===== src/Storage/Book.antt =====
-- The contacts as a function from public keys to contacts, and what each statement does to it.
use mathlib.Core.Option
use local_messenger.Common.{
  ℕ, ◌^◌, ◌<◌, ◌≡◌, ◌≢◌, refl, sym, ap, subst, ◌∙◌, ◌==◌, ite, Bool, if◌then◌else◌, List, [], ◌∷◌,
  Option, none, some, Bytes, Bytes-discrete, ℕ_discrete, All, Option-cases, inl, inr, arith,
}
use local_messenger.Storage.{ContactRow, Database, Stamp, ok, new_database, open_database}
use local_messenger.Storage.Sql.{select_one, update, delete}
use local_messenger.Storage.Contacts.{
  Contact, row_to_contact, has_key, has_id, sent_to, remove, update_address, set_blocked,
  find_by_public_key,
}
use local_messenger.Storage.Contacts.Upsert.{merged, find_by_public_key-upsert}
use local_messenger.Storage.Messages.{update_status, mark_all_read}
use local_messenger.Storage.Messages.Stored.{insert-eq-ok}
use local_messenger.Storage.Settings.{set_value}
use local_messenger.Storage.Integrity.{
  Distinct, All-delete_ne, keys, IsValid, Step, upserts, removes, updates_address, sets_blocked,
  inserts, updates_status, marks_all_read, reopens, sets_value, Run, here, next, Run-IsValid,
}

abbrev pub Book : Type 0
Book = Bytes → Option Contact

-- The change of the contact with this id, if there is one.
abbrev pub change : ℕ → (Contact → Contact) → Option Contact → Option Contact
change id f none = none
change id f (some c) = some (if c.id == id then f c else c)

abbrev pub forget : ℕ → Option Contact → Option Contact
forget id none = none
forget id (some c) = if c.id == id then none else some c

-- A statement on the book: those on messages and settings leave it as it is, and so does a new start.
abbrev pub act : {d e : Database} → Step d e → Book → Book
act (upserts t c fresh small h) book k =
    ite (Bytes-discrete c.public_key k) (some (merged t c (book k))) (book k)
act (removes id h) book k = forget id (book k)
act (updates_address t id port ip small h) book k =
    change id (λ c. record c { ip = ip; port = port; updated_at = t.now }) (book k)
act (sets_blocked id blocked h) book k = change id (λ c. record c { is_blocked = blocked }) (book k)
act (inserts t m id fresh h) book k = book k
act (updates_status uuid status h) book k = book k
act (marks_all_read contact_id h) book k = book k
act (reopens h) book k = book k
act (sets_value key value h) book k = book k

-- All statements of a run, from the empty book on.
abbrev pub replay : {db : Database} → Run new_database db → Book
replay here k = none
replay (next run step) k = act step (replay run) k

abbrev at_id : ℕ → (ContactRow → ContactRow) → ContactRow → ContactRow
at_id i f r = ite (ℕ_discrete r.id i) (f r) r

select_one-update_id :
    (k : Bytes) (i : ℕ) (f : ContactRow → ContactRow) (rows : List ContactRow)
    → ((r : ContactRow) → (f r).public_key ≡ r.public_key)
    → select_one (has_key k) (update (has_id i) f rows)
      ≡ Option.map (at_id i f) (select_one (has_key k) rows)
unfolding select_one update
select_one-update_id k i f [] keep = refl
select_one-update_id k i f (r ∷ rows) keep =
    ground (arith, keep r, select_one-update_id k i f rows keep)

absent_key :
    (k : Bytes) (rows : List ContactRow)
    → All (λ j. j ≢ k) (keys rows)
    → select_one (has_key k) rows ≡ none
unfolding select_one
absent_key k [] a = refl
absent_key k (r ∷ rows) a = ground (arith, a.0, absent_key k rows a.1)

abbrev other_row : ℕ → Option ContactRow → Option ContactRow
other_row i none = none
other_row i (some r) = ite (ℕ_discrete r.id i) none (some r)

-- A key is deleted with its row, since no other row has it.
select_one-delete_id :
    (k : Bytes) (i : ℕ) (rows : List ContactRow)
    → Distinct (keys rows)
    → select_one (has_key k) (delete (has_id i) rows) ≡ other_row i (select_one (has_key k) rows)
unfolding select_one delete
select_one-delete_id k i [] d = refl
select_one-delete_id k i (r ∷ rows) d = elim (Bytes-discrete r.public_key k) [
  | yes e ↦
      let gone : select_one (has_key k) (delete (has_id i) rows) ≡ none =
        absent_key k (delete (has_id i) rows)
          (All-delete_ne k i rows (subst (λ x. All (λ j. j ≢ x) (keys rows)) e d.0)) in
      ground (arith, e, gone)
  | no n ↦ ground (arith, n, select_one-delete_id k i rows d.1)
]

row_to_contact-id : (r : ContactRow) → (row_to_contact r).id ≡ r.id
unfolding row_to_contact
row_to_contact-id r = refl

change_row :
    (i : ℕ) (f : ContactRow → ContactRow) (g : Contact → Contact) (o : Option ContactRow)
    → ((r : ContactRow) → row_to_contact (f r) ≡ g (row_to_contact r))
    → Option.map row_to_contact (Option.map (at_id i f) o)
      ≡ change i g (Option.map row_to_contact o)
change_row i f g none same = refl
change_row i f g (some r) same = ground (arith, row_to_contact-id r, same r)

forget_row :
    (i : ℕ) (o : Option ContactRow)
    → Option.map row_to_contact (other_row i o) ≡ forget i (Option.map row_to_contact o)
forget_row i none = refl
forget_row i (some r) = ground (arith, row_to_contact-id r)

remove_refines :
    (id : ℕ) (k : Bytes) (d e : Database)
    → remove id d ≡ ok e
    → Distinct (keys d.contacts)
    → find_by_public_key k e ≡ forget id (find_by_public_key k d)
unfolding remove find_by_public_key
remove_refines id k d e done distinct = elim (Option-cases (select_one (sent_to id) d.messages)) [
  | inl free ↦
      let same : record d { contacts = delete (has_id id) d.contacts } ≡ e =
        ground (arith, free, done) in
      subst
        (λ x.
          Option.map row_to_contact (select_one (has_key k) x.contacts)
          ≡ forget id (Option.map row_to_contact (select_one (has_key k) d.contacts)))
        same
        (ap (Option.map row_to_contact) (select_one-delete_id k id d.contacts distinct)
          ∙ forget_row id (select_one (has_key k) d.contacts))
  | inr (m, referred) ↦ ground (arith, referred, done)
]

change_refines :
    (id : ℕ) (k : Bytes) (f : ContactRow → ContactRow) (g : Contact → Contact)
    (rows : List ContactRow)
    → ((r : ContactRow) → (f r).public_key ≡ r.public_key)
    → ((r : ContactRow) → row_to_contact (f r) ≡ g (row_to_contact r))
    → Option.map row_to_contact (select_one (has_key k) (update (has_id id) f rows))
      ≡ change id g (Option.map row_to_contact (select_one (has_key k) rows))
change_refines id k f g rows keep same =
    ap (Option.map row_to_contact) (select_one-update_id k id f rows keep)
    ∙ change_row id f g (select_one (has_key k) rows) same

update_address_refines :
    (t : Stamp) (id port : ℕ) (ip k : Bytes) (d : Database)
    → port < 2 ^ 16
    → find_by_public_key k (update_address t id ip port d)
      ≡ change id
          (λ c. record c { ip = ip; port = port; updated_at = t.now })
          (find_by_public_key k d)
unfolding update_address find_by_public_key row_to_contact
update_address_refines t id port ip k d small =
    change_refines id k (λ r. record r { ip = ip; port = port; updated_at = t.now })
      (λ c. record c { ip = ip; port = port; updated_at = t.now }) d.contacts (λ r. refl)
      (λ r. ground arith)

set_blocked_refines :
    (id : ℕ) (blocked : Bool) (k : Bytes) (d : Database)
    → find_by_public_key k (set_blocked id blocked d)
      ≡ change id (λ c. record c { is_blocked = blocked }) (find_by_public_key k d)
unfolding set_blocked find_by_public_key row_to_contact
set_blocked_refines id blocked k d =
    change_refines id k (λ r. record r { is_blocked = if blocked then 1 else 0 })
      (λ c. record c { is_blocked = blocked }) d.contacts (λ r. refl) (λ r. ground arith)

-- Each statement of the database is the statement on the book.
act_refines :
    {d e : Database} (step : Step d e) (k : Bytes)
    → IsValid d
    → find_by_public_key k e ≡ act step (λ j. find_by_public_key j d) k
unfolding find_by_public_key update_status mark_all_read set_value open_database
act_refines {d} {e} (upserts t c fresh small h) k v =
    ap (find_by_public_key k) h ∙ find_by_public_key-upsert t c k d small
act_refines {d} {e} (removes id h) k v = remove_refines id k d e h v.keys_differ
act_refines {d} {e} (updates_address t id port ip small h) k v =
    ap (find_by_public_key k) h ∙ update_address_refines t id port ip k d small
act_refines {d} {e} (sets_blocked id blocked h) k v =
    ap (find_by_public_key k) h ∙ set_blocked_refines id blocked k d
act_refines {d} {e} (inserts t m id fresh h) k v =
    let (c, known, same, given) = insert-eq-ok t m d e id h in ap (find_by_public_key k) (sym same)
act_refines {d} {e} (updates_status uuid status h) k v = ap (find_by_public_key k) h
act_refines {d} {e} (marks_all_read contact_id h) k v = ap (find_by_public_key k) h
act_refines {d} {e} (reopens h) k v = ap (find_by_public_key k) h
act_refines {d} {e} (sets_value key value h) k v = ap (find_by_public_key k) h

act_congruent :
    {d e : Database} (step : Step d e) (book other : Book) (k : Bytes)
    → book k ≡ other k
    → act step book k ≡ act step other k
act_congruent (upserts t c fresh small h) book other k same =
    ap (λ o. ite (Bytes-discrete c.public_key k) (some (merged t c o)) o) same
act_congruent (removes id h) book other k same = ap (forget id) same
act_congruent (updates_address t id port ip small h) book other k same = ap (change id _) same
act_congruent (sets_blocked id blocked h) book other k same = ap (change id _) same
act_congruent (inserts t m id fresh h) book other k same = same
act_congruent (updates_status uuid status h) book other k same = same
act_congruent (marks_all_read contact_id h) book other k same = same
act_congruent (reopens h) book other k same = same
act_congruent (sets_value key value h) book other k same = same

-- After any run of statements on a new database, over any number of starts, a public key has the
-- contact that it has in the book when the same statements are carried out on the book, from the
-- empty one on.
pub find_by_public_key-replay :
    {db : Database} (run : Run new_database db) (k : Bytes) → find_by_public_key k db ≡ replay run k
unfolding find_by_public_key new_database select_one
find_by_public_key-replay here k = refl
find_by_public_key-replay (next {d} run step) k =
    act_refines step k (Run-IsValid run)
    ∙ act_congruent step (λ j. find_by_public_key j d) (replay run) k
        (find_by_public_key-replay run k)
