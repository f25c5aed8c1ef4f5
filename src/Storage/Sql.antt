-- ===== src/Storage/Sql.antt =====
-- The statements' common parts: WHERE, UPDATE, DELETE, the first row of a result, and ORDER BY.
pub mod Newest
use mathlib.Core.Option
use mathlib.Core.List.{Perm, Pairwise}
use local_messenger.Common.{
  ℕ, ◌≤◌, ◌≡◌, refl, ite, List, [], ◌∷◌, ◌++◌, map, Option, none, some, arith,
}

module _ {A : Type 0} {P : A → Type 0} (d : (a : A) → Dec (P a)) where
  -- SELECT * WHERE d
  unfoldable pub select : List A → List A
  select [] = []
  select (a ∷ rest) = ite (d a) (a ∷ select rest) (select rest)

  -- The first row that a SELECT * WHERE d steps to.
  unfoldable pub select_one : List A → Option A
  select_one [] = none
  select_one (a ∷ rest) = ite (d a) (some a) (select_one rest)

  -- UPDATE SET f WHERE d
  unfoldable pub update : (A → A) → List A → List A
  update f [] = []
  update f (a ∷ rest) = ite (d a) (f a) a ∷ update f rest

  -- DELETE WHERE d
  unfoldable pub delete : List A → List A
  delete [] = []
  delete (a ∷ rest) = ite (d a) (delete rest) (a ∷ delete rest)

  pub select_one-append :
      (xs ys : List A)
      → select_one (xs ++ ys) ≡ elim (select_one xs) [ none ↦ select_one ys | some a ↦ some a ]
  unfolding select_one
  select_one-append [] ys = refl
  select_one-append (x ∷ xs) ys = ground (arith, select_one-append xs ys)

  pub map-update :
      {B : Type 0} (g : A → B) (f : A → A) (xs : List A)
      → ((a : A) → g (f a) ≡ g a)
      → map g (update f xs) ≡ map g xs
  unfolding update
  map-update g f [] h = refl
  map-update g f (x ∷ xs) h = ground (arith, h x, map-update g f xs h)

-- LIMIT 1
abbrev pub head {ℓ} : {A : Type ℓ} → List A → Option A
head [] = none
head (a ∷ rest) = some a

-- ORDER BY key DESC: some order of the rows in which the keys fall. SQLite does not say which of the
-- rows with equal keys comes first.
pub record OrderBy {A : Type 0} (key : A → ℕ) : Type 0 where
  pub sort : List A → List A
  pub sort_perm : (l : List A) → Perm (sort l) l
  pub sort_falls : (l : List A) → Pairwise (λ a b. key b ≤ key a) (sort l)

pub none_of_map : {A B : Type 0} (f : A → B) (o : Option A) → Option.map f o ≡ none → o ≡ none
none_of_map f none e = refl
none_of_map f (some a) e = cc

pub some_of_map :
    {A B : Type 0} (f : A → B) (o : Option A) {b : B}
    → Option.map f o ≡ some b
    → (a : A) × (o ≡ some a) × (f a ≡ b)
some_of_map f none e = cc
some_of_map f (some a) e = (a, refl, ground arith)
