-- ===== src/Storage/Integrity/Lists.antt =====
-- Columns as lists: ids that ascend, keys that differ, and ids that are there.
use local_messenger.Common.{
  ℕ, ◌≤◌, ◌<◌, ◌≡◌, ◌≢◌, sym, true, false, Bool, ◌==◌, if◌then◌else◌, List, [], ◌∷◌, ◌++◌, map,
  none, some, Bytes, All, arith,
}
use local_messenger.Storage.{ContactRow, MessageRow}
use local_messenger.Storage.Sql.{select_one, delete}
use local_messenger.Storage.Contacts.{has_key, has_id, sent_to}

-- Above `lo`, growing, and at most `hi`.
abbrev pub Ascends : ℕ → List ℕ → ℕ → Type 0
Ascends lo [] hi = lo ≤ hi
Ascends lo (i ∷ is) hi = (lo < i) × Ascends i is hi

abbrev pub Distinct : List Bytes → Type 0
Distinct [] = Unit {0}
Distinct (k ∷ ks) = All (λ j. j ≢ k) ks × Distinct ks

unfoldable pub contains : ℕ → List ℕ → Bool
contains i [] = false
contains i (j ∷ js) = if j == i then true else contains i js

pub Ascends-append :
    (lo hi n : ℕ) (is : List ℕ) → Ascends lo is hi → hi < n → Ascends lo (is ++ (n ∷ [])) n
Ascends-append lo hi n [] a h = omega arith
Ascends-append lo hi n (i ∷ is) a h = (a.0, Ascends-append i hi n is a.1 h)

pub Ascends-lower : (lo i hi : ℕ) (is : List ℕ) → lo ≤ i → Ascends i is hi → Ascends lo is hi
Ascends-lower lo i hi [] h a = omega arith
Ascends-lower lo i hi (j ∷ is) h a = (omega arith, a.1)

pub Ascends-delete :
    (k lo hi : ℕ) (rows : List ContactRow)
    → Ascends lo (map (λ r. r.id) rows) hi
    → Ascends lo (map (λ r. r.id) (delete (has_id k) rows)) hi
unfolding delete
Ascends-delete k lo hi [] a = a
Ascends-delete k lo hi (r ∷ rows) a = ground (
  arith,
  Ascends-delete k r.id hi rows a.1,
  Ascends-lower lo r.id hi (map (λ r. r.id) (delete (has_id k) rows)),
)

All-append_ne :
    (k j : Bytes) (ks : List Bytes)
    → All (λ i. i ≢ k) ks
    → j ≢ k
    → All (λ i. i ≢ k) (ks ++ (j ∷ []))
All-append_ne k j [] a h = (h, tt)
All-append_ne k j (i ∷ ks) a h = (a.0, All-append_ne k j ks a.1 h)

pub Distinct-append :
    (k : Bytes) (ks : List Bytes) → Distinct ks → All (λ j. j ≢ k) ks → Distinct (ks ++ (k ∷ []))
Distinct-append k [] d a = (tt, tt)
Distinct-append k (j ∷ ks) d a =
    (All-append_ne j k ks d.0 (λ e. a.0 (sym e)), Distinct-append k ks d.1 a.1)

pub unknown_key :
    (k : Bytes) (rows : List ContactRow)
    → select_one (has_key k) rows ≡ none
    → All (λ j. j ≢ k) (map (λ r. r.public_key) rows)
unfolding select_one
unknown_key k [] e = tt
unknown_key k (r ∷ rows) e = ground (arith, unknown_key k rows)

pub All-delete_ne :
    (k : Bytes) (i : ℕ) (rows : List ContactRow)
    → All (λ j. j ≢ k) (map (λ r. r.public_key) rows)
    → All (λ j. j ≢ k) (map (λ r. r.public_key) (delete (has_id i) rows))
unfolding delete
All-delete_ne k i [] a = a
All-delete_ne k i (r ∷ rows) a = ground (arith, All-delete_ne k i rows a.1, a.0)

pub Distinct-delete :
    (i : ℕ) (rows : List ContactRow)
    → Distinct (map (λ r. r.public_key) rows)
    → Distinct (map (λ r. r.public_key) (delete (has_id i) rows))
unfolding delete
Distinct-delete i [] d = d
Distinct-delete i (r ∷ rows) d =
    ground (arith, Distinct-delete i rows d.1, All-delete_ne r.public_key i rows d.0)

pub contains-append : (i : ℕ) (xs ys : List ℕ) → contains i xs ≡ true → contains i (xs ++ ys) ≡ true
unfolding contains
contains-append i [] ys e = cc
contains-append i (x ∷ xs) ys e = ground (arith, contains-append i xs ys)

pub contains_found :
    (i : ℕ) (c : ContactRow) (rows : List ContactRow)
    → select_one (has_id i) rows ≡ some c
    → contains i (map (λ r. r.id) rows) ≡ true
unfolding contains select_one
contains_found i c [] e = cc
contains_found i c (r ∷ rows) e = ground (arith, contains_found i c rows)

contains-delete :
    (i k : ℕ) (rows : List ContactRow)
    → i ≢ k
    → contains i (map (λ r. r.id) rows) ≡ true
    → contains i (map (λ r. r.id) (delete (has_id k) rows)) ≡ true
unfolding contains delete
contains-delete i k [] h e = e
contains-delete i k (r ∷ rows) h e = ground (arith, contains-delete i k rows h)

pub All-contains-append :
    (js xs ys : List ℕ)
    → All (λ j. contains j xs ≡ true) js
    → All (λ j. contains j (xs ++ ys) ≡ true) js
All-contains-append [] xs ys a = tt
All-contains-append (j ∷ js) xs ys a =
    (contains-append j xs ys a.0, All-contains-append js xs ys a.1)

pub All-contains_last :
    (i : ℕ) (js xs : List ℕ)
    → All (λ j. contains j xs ≡ true) js
    → contains i xs ≡ true
    → All (λ j. contains j xs ≡ true) (js ++ (i ∷ []))
All-contains_last i [] xs a e = (e, tt)
All-contains_last i (j ∷ js) xs a e = (a.0, All-contains_last i js xs a.1 e)

-- Without messages to contact `k`, all messages' contacts are still there when `k` is gone.
pub All-contains-delete :
    (k : ℕ) (rows : List ContactRow) (ms : List MessageRow)
    → select_one (sent_to k) ms ≡ none
    → All (λ j. contains j (map (λ r. r.id) rows) ≡ true) (map (λ m. m.contact_id) ms)
    → All
        (λ j. contains j (map (λ r. r.id) (delete (has_id k) rows)) ≡ true)
        (map (λ m. m.contact_id) ms)
unfolding select_one
All-contains-delete k rows [] e a = tt
All-contains-delete k rows (m ∷ ms) e a =
    ground (arith, contains-delete m.contact_id k rows, All-contains-delete k rows ms, a.0, a.1)
