-- ===== src/Base/Maps.antt =====
-- Go maps as association lists in order of first insertion.
use mathlib.Core.Path.{◌≡◌, refl}
use mathlib.Core.Logic.{◌↔◌}
use mathlib.Core.Bool.{Bool, true}
use mathlib.Core.List.{List, [], ◌∷◌}
use mathlib.Core.Option.{Option, none, some}
use native.Mathlib.Omega.{arith}
use Prim.Native.Nat.{ℕ}
use mefs_go_settlement.Base.Tests.{◌==◌, ==_iff, if◌then◌else◌}
use mefs_go_settlement.Base.Int.{ℤ, pos, ◌+ℤ◌, ◌-ℤ◌, int_laws}

-- A map key: a type whose values Go compares with `==`.
pub record MapKey {ℓ} (K : Type ℓ) : Type ℓ where
  pub beq : (j k : K) → Bool
  pub beq_iff : (j k : K) → (beq j k ≡ true) ↔ (j ≡ k)

instance abbrev pub nat_eq : MapKey ℕ
nat_eq = record { beq = ◌==◌; beq_iff = ==_iff }

abbrev pub Dict {ℓ κ} : Type ℓ → Type κ → Type (ℓ ⊔ κ)
Dict K V = List (K × V)

pub beq_self {ℓ} : {K : Type ℓ} ⦃e : MapKey K⦄ (k : K) → e.beq k k ≡ true
beq_self ⦃e⦄ k = (e.beq_iff k k).1 refl

module _ {ℓ κ} {K : Type ℓ} {V : Type κ} ⦃e : MapKey K⦄ where
  unfoldable pub lookup : K → Dict K V → Option V
  lookup k [] = none
  lookup k ((j, v) ∷ d) = if e.beq j k then some v else lookup k d

  unfoldable pub insert : K → V → Dict K V → Dict K V
  insert k v [] = (k, v) ∷ []
  insert k v ((j, w) ∷ d) = if e.beq j k then (k, v) ∷ d else (j, w) ∷ insert k v d

  pub lookup-insert :
      (k j : K) (v : V) (d : Dict K V)
      → lookup j (insert k v d) ≡ (if e.beq k j then some v else lookup j d)
  unfolding lookup insert
  lookup-insert k j v [] = refl
  lookup-insert k j v ((i, w) ∷ d) =
      ground (arith, e.beq_iff k j, e.beq_iff i k, e.beq_iff i j, lookup-insert k j v d)

  pub lookup-insert_self : (k : K) (v : V) (d : Dict K V) → lookup k (insert k v d) ≡ some v
  lookup-insert_self k v d = rw (lookup-insert k k v d, beq_self k) refl

  -- A key written with the value that it has.
  pub insert-same : (k : K) (v : V) (d : Dict K V) → lookup k d ≡ some v → insert k v d ≡ d
  unfolding lookup insert
  insert-same k v [] h = absurd (cc h)
  insert-same k v ((j, w) ∷ d) h = ground (arith, e.beq_iff j k, insert-same k v d, h)

-- The sum of the values.
module _ {ℓ} {K : Type ℓ} where
  unfoldable pub sum : Dict K ℤ → ℤ
  sum [] = pos 0
  sum ((k, v) ∷ d) = v +ℤ sum d

-- The value at a key that may be missing, which counts as 0.
abbrev pub or_zero : Option ℤ → ℤ
or_zero none = pos 0
or_zero (some v) = v

module _ {ℓ} {K : Type ℓ} ⦃e : MapKey K⦄ where
  pub sum-insert :
      (k : K) (v : ℤ) (d : Dict K ℤ) → sum (insert k v d) ≡ sum d +ℤ v -ℤ or_zero (lookup k d)
  unfolding sum insert lookup
  sum-insert k v [] = omega int_laws
  sum-insert k v ((j, w) ∷ d) = grind (int_laws, sum-insert k v d)
