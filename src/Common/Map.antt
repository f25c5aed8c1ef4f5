-- ===== src/Common/Map.antt =====
-- `std::unordered_map<std::string, V>` as an association list. The order of iteration is that of
-- the list, and no theorem depends on it.
use mathlib.Core.Path.{◌≡◌, refl, subst}
use mathlib.Core.List.{List, [], ◌∷◌}
use mathlib.Core.Logic.{ite}
use mathlib.Core.Option.{Option, none, some}
use native.Mathlib.Omega.{arith}
use local_messenger.Common.Text.{Bytes, Bytes-discrete}

abbrev pub Map {ℓ} : Type ℓ → Type ℓ
Map V = List (Bytes × V)

module _ {ℓ} {V : Type ℓ} where
  -- `find`
  unfoldable pub find : Bytes → Map V → Option V
  unfolding Bytes-discrete
  find k [] = none
  find k ((j, v) ∷ m) = ite (Bytes-discrete j k) (some v) (find k m)

  -- `m[k] = v`
  unfoldable pub assign : Bytes → V → Map V → Map V
  unfolding Bytes-discrete
  assign k v [] = (k, v) ∷ []
  assign k v ((j, w) ∷ m) = ite (Bytes-discrete j k) ((k, v) ∷ m) ((j, w) ∷ assign k v m)

  -- `erase(k)`
  unfoldable pub erase : Bytes → Map V → Map V
  unfolding Bytes-discrete
  erase k [] = []
  erase k ((j, v) ∷ m) = ite (Bytes-discrete j k) (erase k m) ((j, v) ∷ erase k m)

  pub find-assign :
      (k j : Bytes) (v : V) (m : Map V)
      → find j (assign k v m) ≡ ite (Bytes-discrete k j) (some v) (find j m)
  unfolding find assign
  find-assign k j v [] = refl
  find-assign k j v ((i, w) ∷ m) = ground (arith, find-assign k j v m)

  pub find-erase :
      (k j : Bytes) (m : Map V) → find j (erase k m) ≡ ite (Bytes-discrete k j) none (find j m)
  unfolding find erase
  find-erase k j [] = ground arith
  find-erase k j ((i, w) ∷ m) = ground (arith, find-erase k j m)

module _ {ℓ} {V : Type ℓ} where
  -- No key twice.
  unfoldable pub IsUnique : Map V → Type ℓ
  unfolding find
  IsUnique [] = Unit {ℓ}
  IsUnique ((k, v) ∷ m) = (find k m ≡ none) × IsUnique m

  pub assign-IsUnique : (k : Bytes) (v : V) (m : Map V) → IsUnique m → IsUnique (assign k v m)
  unfolding IsUnique assign find
  assign-IsUnique k v [] u = (refl, tt)
  assign-IsUnique k v ((j, w) ∷ m) u =
      elim (Bytes-discrete j k)
        as (λ d. IsUnique (ite {C = Map V} d ((k, v) ∷ m) ((j, w) ∷ assign k v m))) [
          | yes e ↦ (subst (λ i. find i m ≡ none) e u.0, u.1)
          | no n ↦ (ground (arith, find-assign k j v m, u.0, n), assign-IsUnique k v m u.1)
        ]
