-- ===== src/Storage/Messages/Pages.antt =====
-- The pages of a chat: get_by_contact and last_message.
use mathlib.Core.Option
use mathlib.Core.List.{
  reverse, reverse-append, map-append, Pairwise, Pairwise-append, Pairwise-reverse,
}
use mathlib.Core.List.Pairwise
use native.Mathlib.Nat.{zero-add}
use native.Mathlib.Bridge.{le_prop}
use local_messenger.Common.{
  ℕ, zero, suc, ◌+◌, ◌≤◌, ◌≡◌, refl, sym, ap, ◌∙◌, List, [], ◌∷◌, ◌++◌, map, Option, none, some,
  take, drop, take-append-drop, arith,
}
use local_messenger.Storage.{MessageRow, Database}
use local_messenger.Storage.Sql.{OrderBy, head, select}
use local_messenger.Storage.Messages.{
  row_to_message, created, of_contact, get_by_contact, last_message,
}

abbrev pub to_list {ℓ} : {A : Type ℓ} → Option A → List A
to_list none = []
to_list (some a) = a ∷ []

take-nil {ℓ} : {A : Type ℓ} (n : ℕ) → take {A = A} n [] ≡ []
take-nil zero = refl
take-nil (suc n) = refl

drop-nil {ℓ} : {A : Type ℓ} (n : ℕ) → drop {A = A} n [] ≡ []
drop-nil zero = refl
drop-nil (suc n) = refl

take-add {ℓ} :
    {A : Type ℓ} (m n : ℕ) (xs : List A) → take (m + n) xs ≡ take m xs ++ take n (drop m xs)
take-add zero n xs = rw zero-add
take-add (suc m) n [] = let e : suc m + n ≡ suc (m + n) = omega arith in rw e (sym (take-nil n))
take-add (suc m) n (x ∷ xs) =
    let e : suc m + n ≡ suc (m + n) = omega arith in rw e (ap (λ l. x ∷ l) (take-add m n xs))

drop-add {ℓ} : {A : Type ℓ} (m n : ℕ) (xs : List A) → drop (m + n) xs ≡ drop n (drop m xs)
drop-add zero n xs = rw zero-add
drop-add (suc m) n [] = let e : suc m + n ≡ suc (m + n) = omega arith in rw e (sym (drop-nil n))
drop-add (suc m) n (x ∷ xs) =
    let e : suc m + n ≡ suc (m + n) = omega arith in rw e (drop-add m n xs)

-- Two pages that follow one another are the one page of both sizes, the older page in front.
pub get_by_contact_pages :
    (newest : OrderBy created) (contact_id m n offset : ℕ) (db : Database)
    → get_by_contact newest contact_id (m + n) offset db
      ≡ get_by_contact newest contact_id n (offset + m) db
        ++ get_by_contact newest contact_id m offset db
unfolding get_by_contact
get_by_contact_pages newest contact_id m n offset db =
    let rows : List MessageRow = newest.sort (select (of_contact contact_id) db.messages) in
    rw (
      take-add m n (drop offset rows),
      map-append row_to_message (take m (drop offset rows)),
      reverse-append,
      drop-add offset m rows,
    )

falls→rises :
    (rows : List MessageRow) (m n : ℕ)
    → Pairwise (λ a b. created b ≤ created a) rows
    → Pairwise
        (λ a b. a.created_at ≤ b.created_at)
        (reverse (map row_to_message (take m (drop n rows))))
unfolding row_to_message
falls→rises rows m n h =
    (Pairwise-reverse (λ a b. le_prop)).1 (Pairwise.map (λ a b. le_prop) row_to_message kept page)
  where
    kept :
        (a b : MessageRow)
        → created b ≤ created a
        → (row_to_message b).created_at ≤ (row_to_message a).created_at
    kept a b k = k

    split :
        (xs ys : List MessageRow)
        → Pairwise (λ a b. created b ≤ created a) (xs ++ ys)
        → Pairwise (λ a b. created b ≤ created a) xs × Pairwise (λ a b. created b ≤ created a) ys
    split xs ys k =
        let parts = (Pairwise-append (λ a b. le_prop) {l₁ = xs} {l₂ = ys}).0 k in (parts.0, parts.1)

    below : Pairwise (λ a b. created b ≤ created a) (drop n rows)
    below = (split (take n rows) (drop n rows) (rw (take-append-drop n rows) h)).1

    page : Pairwise (λ a b. created b ≤ created a) (take m (drop n rows))
    page =
        (split (take m (drop n rows)) (drop m (drop n rows))
          (rw (take-append-drop m (drop n rows)) below)).0

-- Along a page the messages get newer, whatever the limit and the offset.
pub get_by_contact_rises :
    (newest : OrderBy created) (contact_id limit offset : ℕ) (db : Database)
    → Pairwise
        (λ a b. a.created_at ≤ b.created_at)
        (get_by_contact newest contact_id limit offset db)
unfolding get_by_contact
get_by_contact_rises newest contact_id limit offset db =
    falls→rises _ limit offset (newest.sort_falls _)

one_row :
    (rows : List MessageRow)
    → reverse (map row_to_message (take 1 (drop 0 rows)))
      ≡ to_list (Option.map row_to_message (head rows))
one_row [] = refl
one_row (r ∷ rows) = refl

-- The newest page of one message and more ends with last_message, before which stand the messages of
-- the page without it; an empty chat has neither.
pub get_by_contact-last_message :
    (newest : OrderBy created) (contact_id n : ℕ) (db : Database)
    → get_by_contact newest contact_id (1 + n) 0 db
      ≡ get_by_contact newest contact_id n 1 db ++ to_list (last_message newest contact_id db)
get_by_contact-last_message newest contact_id n db =
    get_by_contact_pages newest contact_id 1 n 0 db
    ∙ ap (λ l. get_by_contact newest contact_id n 1 db ++ l)
        (unfold get_by_contact last_message in one_row _)
