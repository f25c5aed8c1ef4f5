-- ===== src/Storage/Sorting.antt =====
-- An order of rows for the examples: insertion into the sorted rows.
use mathlib.Core.List.{
  Permᴰ, Pairwise, Mem, eq-or-mem_of_mem-cons, rel_of_Pairwise-cons, Pairwise-cons, not-mem-nil,
}
use mathlib.Core.List.Perm
use mathlib.Core.List.Permᴰ
use mathlib.Core.Logic.Or
use native.Mathlib.Bridge.{le_prop}
use local_messenger.Common.{ℕ, ◌≤◌, refl, subst, sym, ite, dec_le, List, [], ◌∷◌, arith}
use local_messenger.Storage.Sql.{OrderBy}

module _ {A : Type 0} (key : A → ℕ) where
  abbrev put : A → List A → List A
  put a [] = a ∷ []
  put a (b ∷ rows) = ite {C = List A} (dec_le (key b) (key a)) (a ∷ (b ∷ rows)) (b ∷ put a rows)

  abbrev sorted : List A → List A
  sorted [] = []
  sorted (a ∷ rows) = put a (sorted rows)

  abbrev Falls : List A → Type 0
  Falls rows = Pairwise (λ a b. key b ≤ key a) rows

  put_perm : (a : A) (rows : List A) → Permᴰ (put a rows) (a ∷ rows)
  put_perm a [] = Permᴰ.cons refl Permᴰ.nil
  put_perm a (b ∷ rows) =
      elim (dec_le (key b) (key a))
        as (λ d. Permᴰ (ite {C = List A} d (a ∷ (b ∷ rows)) (b ∷ put a rows)) (a ∷ (b ∷ rows))) [
          | yes h ↦ Permᴰ.refl _
          | no h ↦ Permᴰ.trans (Permᴰ.cons refl (put_perm a rows)) (Permᴰ.swap refl refl)
        ]

  pub sorted_perm : (rows : List A) → Permᴰ (sorted rows) rows
  sorted_perm [] = Permᴰ.nil
  sorted_perm (a ∷ rows) =
      Permᴰ.trans (put_perm a (sorted rows)) (Permᴰ.cons refl (sorted_perm rows))

  Falls-below :
      (a b : A) (rows : List A)
      → key b ≤ key a
      → Falls (b ∷ rows)
      → (c : A) → Mem c (b ∷ rows)
      → key c ≤ key a
  Falls-below a b rows h p c m =
      Or.elim le_prop (eq-or-mem_of_mem-cons m) (λ e. subst (λ x. key x ≤ key a) (sym e) h)
        (λ k. let below : key c ≤ key b = rel_of_Pairwise-cons p k in omega arith)

  put-Falls : (a : A) (rows : List A) → Falls rows → Falls (put a rows)
  put-Falls a [] p = Pairwise.cons (λ c m. absurd (not-mem-nil m)) Pairwise.nil
  put-Falls a (b ∷ rows) p =
      elim (dec_le (key b) (key a))
        as (λ d. Falls (ite {C = List A} d (a ∷ (b ∷ rows)) (b ∷ put a rows))) [
          | yes h ↦ Pairwise.cons (Falls-below a b rows h p) p
          | no h ↦
              Pairwise.cons
                (λ c m.
                  Or.elim le_prop (eq-or-mem_of_mem-cons ((Perm.mem_iff ∣ put_perm a rows ∣₁).0 m))
                    (λ e. subst (λ x. key x ≤ key b) (sym e) (omega arith))
                    (λ k. rel_of_Pairwise-cons p k))
                (put-Falls a rows (Pairwise-cons.0 p).1)
        ]

  pub sorted-Falls : (rows : List A) → Falls (sorted rows)
  sorted-Falls [] = Pairwise.nil
  sorted-Falls (a ∷ rows) = put-Falls a (sorted rows) (sorted-Falls rows)

  unfoldable pub by_insertion : OrderBy key
  by_insertion = record {
    sort = sorted;
    sort_perm = λ rows. ∣ sorted_perm rows ∣₁;
    sort_falls = sorted-Falls;
  }
