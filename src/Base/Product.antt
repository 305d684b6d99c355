-- ===== src/Base/Product.antt =====
-- Products and quotients of integers.
use Prim.Native.Nat.{ℕ, ◌+◌, ◌*◌, ◌/◌}
use mathlib.Core.Path.{◌≡◌, ap}
use native.Mathlib.Nat.{div-mul-le_self}
use native.Mathlib.Omega.{arith}
use mefs_go_settlement.Base.Int.{
  ℤ, pos, negsuc, pos_part, neg_part, ◌+ℤ◌, ◌-ℤ◌, ◌*ℤ◌, ◌/ℤ◌, ◌≤ℤ◌, ◌<ℤ◌, +ℤ_parts, -ℤ_parts,
  *ℤ_parts, int_laws,
}

scaled : (k x y z u v w : ℕ) → x + y + z ≡ u + v + w → k * x + k * y + k * z ≡ k * u + k * v + k * w
scaled k x y z u v w e = grind (arith, ap (λ (t : ℕ). k * t) e)

pub +ℤ-mul : (a b s : ℤ) → (a +ℤ b) *ℤ s ≡ a *ℤ s +ℤ b *ℤ s
+ℤ-mul a b s = omega (
  int_laws,
  *ℤ_parts (a +ℤ b) s,
  *ℤ_parts a s,
  *ℤ_parts b s,
  scaled (pos_part s) _ _ _ _ _ _ (+ℤ_parts a b),
  scaled (neg_part s) _ _ _ _ _ _ (+ℤ_parts a b),
)

pub -ℤ-mul : (a b s : ℤ) → (a -ℤ b) *ℤ s ≡ a *ℤ s -ℤ b *ℤ s
-ℤ-mul a b s = omega (
  int_laws,
  *ℤ_parts (a -ℤ b) s,
  *ℤ_parts a s,
  *ℤ_parts b s,
  scaled (pos_part s) _ _ _ _ _ _ (-ℤ_parts a b),
  scaled (neg_part s) _ _ _ _ _ _ (-ℤ_parts a b),
)

pub mul-+ℤ : (s a b : ℤ) → s *ℤ (a +ℤ b) ≡ s *ℤ a +ℤ s *ℤ b
mul-+ℤ s a b = omega (
  int_laws,
  *ℤ_parts s (a +ℤ b),
  *ℤ_parts s a,
  *ℤ_parts s b,
  scaled (pos_part s) _ _ _ _ _ _ (+ℤ_parts a b),
  scaled (neg_part s) _ _ _ _ _ _ (+ℤ_parts a b),
)

pub mul_nonneg : (a b : ℤ) → pos 0 ≤ℤ a → pos 0 ≤ℤ b → pos 0 ≤ℤ a *ℤ b
mul_nonneg (pos m) (pos n) ha hb = omega (arith, *ℤ_parts (pos m) (pos n))
mul_nonneg (pos m) (negsuc n) ha hb = absurd (omega arith)
mul_nonneg (negsuc m) b ha hb = absurd (omega arith)

pub mul-same : (a s : ℤ) → (a -ℤ a) *ℤ s ≡ pos 0
mul-same a s = grind (int_laws, -ℤ-mul a a s)

pub mul-zero : (a : ℤ) → a *ℤ pos 0 ≡ pos 0
mul-zero a = omega (int_laws, *ℤ_parts a (pos 0))

-- A share of a gain, and what all shares together come to.
pub div-mul : (n t : ℤ) → pos 0 ≤ℤ n → pos 0 <ℤ t → (pos 0 ≤ℤ n /ℤ t) × ((n /ℤ t) *ℤ t ≤ℤ n)
unfolding ◌/ℤ◌
div-mul (pos n) (pos t) hn ht =
    (omega arith, omega (arith, *ℤ_parts (pos (n / t)) (pos t), div-mul-le_self n t))
div-mul (pos n) (negsuc t) hn ht = absurd (omega arith)
div-mul (negsuc n) t hn ht = absurd (omega arith)

pub minus : (a b : ℤ) → a -ℤ b ≡ a +ℤ (pos 0 -ℤ b)
minus a b = omega int_laws

pub zero-mul : (a : ℤ) → pos 0 *ℤ a ≡ pos 0
zero-mul a = omega (int_laws, *ℤ_parts (pos 0) a)
