-- ===== src/Storage/Sql/Newest.antt =====
-- Rows in order: which rows a SELECT has, and which of them comes first.
use mathlib.Core.Path.{sym, ap, ◌∙◌}
use mathlib.Core.Logic.Or
use mathlib.Core.Logic.{∥∥₁_elim}
use mathlib.Core.List.{
  Mem, Mem-prop, not-mem-nil, mem-cons_self, mem-cons_of_mem, eq-or-mem_of_mem-cons, Perm, Permᴰ,
  Pairwise, rel_of_Pairwise-cons,
}
use mathlib.Core.HLevel.{⊥_prop}
use mathlib.Core.List.Perm
use native.Mathlib.Bridge.{le_prop}
use native.Mathlib.Nat.{ℕ_set}
use local_messenger.Common.{
  ℕ, suc, length, ◌≤◌, ◌≡◌, refl, subst, ite, List, [], ◌∷◌, none, some, arith,
}
use local_messenger.Storage.Sql.{OrderBy, head, select, select_one}

module _ {A : Type 0} where
  head_mem : (rows : List A) (r : A) → head rows ≡ some r → Mem r rows
  head_mem [] r e = cc
  head_mem (x ∷ rows) r e =
      let same : x ≡ r = ground (arith, e) in subst (λ y. Mem y (x ∷ rows)) same mem-cons_self

  head_newest :
      (key : A → ℕ) (r : A) (rows : List A)
      → Pairwise (λ a b. key b ≤ key a) rows
      → Mem r rows
      → (c : A) × (head rows ≡ some c) × (key r ≤ key c) × Mem c rows
  head_newest key r [] p k = absurd (not-mem-nil k)
  head_newest key r (x ∷ rows) p k = (
    x,
    refl,
    Or.elim le_prop (eq-or-mem_of_mem-cons k)
        (λ same. subst (λ y. key y ≤ key x) (sym same) (omega arith))
        (λ rest. rel_of_Pairwise-cons p rest),
    mem-cons_self,
  )

  -- The first row of an ordered result is a row of the result.
  pub sort-head_mem :
      {key : A → ℕ} (order : OrderBy key) (rows : List A) (r : A)
      → head (order.sort rows) ≡ some r
      → Mem r rows
  sort-head_mem order rows r e =
      let perm : Perm (order.sort rows) rows = order.sort_perm rows in
      (Perm.mem_iff perm).0 (head_mem (order.sort rows) r e)

  -- An ordered result with a row has a first row, whose key is no smaller.
  pub sort-head_newest :
      {key : A → ℕ} (order : OrderBy key) (rows : List A) (r : A)
      → Mem r rows
      → (c : A) × (head (order.sort rows) ≡ some c) × (key r ≤ key c) × Mem c rows
  sort-head_newest {key} order rows r k =
      let perm : Perm (order.sort rows) rows = order.sort_perm rows in
      let (c, first, newer, there) =
        head_newest key r (order.sort rows) (order.sort_falls rows) ((Perm.mem_iff perm).1 k) in
      (c, first, newer, (Perm.mem_iff perm).0 there)

module _ {A : Type 0} {P : A → Type 0} (d : (a : A) → Dec (P a)) where
  pub select_mem : (r : A) (rows : List A) → P r → Mem r rows → Mem r (select d rows)
  unfolding select
  select_mem r [] e k = absurd (not-mem-nil k)
  select_mem r (x ∷ rows) e k =
      elim (d x) as (λ q. Mem r (ite {C = List A} q (x ∷ select d rows) (select d rows))) [
        | yes h ↦
            Or.elim Mem-prop (eq-or-mem_of_mem-cons k)
              (λ same. subst (λ y. Mem y (x ∷ select d rows)) (sym same) mem-cons_self)
              (λ rest. mem-cons_of_mem x (select_mem r rows e rest))
        | no h ↦
            Or.elim Mem-prop (eq-or-mem_of_mem-cons k) (λ same. absurd (h (subst P same e)))
              (λ rest. select_mem r rows e rest)
      ]

  pub select_sub : (r : A) (rows : List A) → Mem r (select d rows) → Mem r rows
  unfolding select
  select_sub r [] = λ k. k
  select_sub r (x ∷ rows) =
      elim (d x)
        as (λ q.
          Mem r (ite {C = List A} q (x ∷ select d rows) (select d rows)) → Mem r (x ∷ rows)) [
            | yes h ↦ λ k.
                Or.elim Mem-prop (eq-or-mem_of_mem-cons k)
                  (λ same. subst (λ y. Mem y (x ∷ rows)) (sym same) mem-cons_self)
                  (λ rest. mem-cons_of_mem x (select_sub r rows rest))
            | no h ↦ λ k. mem-cons_of_mem x (select_sub r rows k)
          ]

  pub select_holds : (r : A) (rows : List A) → IsProp (P r) → Mem r (select d rows) → P r
  unfolding select
  select_holds r [] prop = λ k. absurd (not-mem-nil k)
  select_holds r (x ∷ rows) prop =
      elim (d x) as (λ q. Mem r (ite {C = List A} q (x ∷ select d rows) (select d rows)) → P r) [
        | yes h ↦ λ k.
            Or.elim prop (eq-or-mem_of_mem-cons k) (λ same. subst P (sym same) h)
              (λ rest. select_holds r rows prop rest)
        | no h ↦ λ k. select_holds r rows prop k
      ]

  -- A query for a row that is there finds one.
  pub select_one-ne-none : (r : A) (rows : List A) → P r → Mem r rows → select_one d rows ≡ none → ⊥
  unfolding select_one
  select_one-ne-none r [] e k n = not-mem-nil k
  select_one-ne-none r (x ∷ rows) e k n =
      Or.elim ⊥_prop (eq-or-mem_of_mem-cons k)
        (λ same. let h : P x = subst P same e in ground arith)
        (λ rest. select_one-ne-none r rows e rest (ground arith))

length-Permᴰ : {A : Type 0} {xs ys : List A} → Permᴰ xs ys → length xs ≡ length ys
length-Permᴰ Permᴰ.nil = refl
length-Permᴰ (Permᴰ.cons e p) = ap suc (length-Permᴰ p)
length-Permᴰ (Permᴰ.swap e f) = refl
length-Permᴰ (Permᴰ.trans p q) = length-Permᴰ p ∙ length-Permᴰ q

pub length-perm : {A : Type 0} {xs ys : List A} → Perm xs ys → length xs ≡ length ys
length-perm {xs = xs} {ys = ys} p = ∥∥₁_elim p (ℕ_set _ _) length-Permᴰ
