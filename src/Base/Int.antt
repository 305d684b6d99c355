-- ===== src/Base/Int.antt =====
-- Integers over the native numbers: `*big.Int`, which is signed and unbounded.
use Prim.Native.Nat.{ℕ, suc, ◌+◌, ◌-◌, ◌*◌, ◌/◌, ◌≤◌}
use mathlib.Core.Path.{◌≡◌, ap}
use native.Mathlib.Nat.{mul-le-mul_left}
use mathlib.Core.Bool.{Bool}
use native.Mathlib.Omega.{arith}
use mefs_go_settlement.Base.Tests.{ltb, leb, if◌then◌else◌}

-- `negsuc n` is -(n + 1).
pub data ℤ : Type 0 where
  pos : ℕ → ℤ
  negsuc : ℕ → ℤ

abbrev pub pos_part : ℤ → ℕ
pos_part (pos n) = n
pos_part (negsuc n) = 0

abbrev pub neg_part : ℤ → ℕ
neg_part (pos n) = 0
neg_part (negsuc n) = suc n

-- a - b, as an integer.
abbrev pub sub_ℕ : ℕ → ℕ → ℤ
sub_ℕ a b = if leb b a then pos (a - b) else negsuc (b - a - 1)

infixl 65 ◌+ℤ◌ ◌-ℤ◌
infixl 70 ◌*ℤ◌ ◌/ℤ◌
infix 50 ◌≤ℤ◌ ◌<ℤ◌
unfoldable pub ◌+ℤ◌ : ℤ → ℤ → ℤ
a +ℤ b = sub_ℕ (pos_part a + pos_part b) (neg_part a + neg_part b)

unfoldable pub ◌-ℤ◌ : ℤ → ℤ → ℤ
a -ℤ b = sub_ℕ (pos_part a + neg_part b) (neg_part a + pos_part b)

unfoldable pub ◌*ℤ◌ : ℤ → ℤ → ℤ
a *ℤ b =
    sub_ℕ (pos_part a * pos_part b + neg_part a * neg_part b)
      (pos_part a * neg_part b + neg_part a * pos_part b)

-- `Div` of math/big is Euclidean: the remainder is never negative.
div_pos : ℤ → ℕ → ℤ
div_pos (pos n) d = pos (n / d)
div_pos (negsuc n) d = negsuc (n / d)

unfoldable pub ◌/ℤ◌ : ℤ → ℤ → ℤ
unfolding div_pos ◌-ℤ◌
a /ℤ pos d = div_pos a d
a /ℤ negsuc d = pos 0 -ℤ div_pos a (suc d)

abbrev pub ◌≤ℤ◌ : ℤ → ℤ → Type 0
a ≤ℤ b = pos_part a + neg_part b ≤ pos_part b + neg_part a

abbrev pub ◌<ℤ◌ : ℤ → ℤ → Type 0
a <ℤ b = suc (pos_part a + neg_part b) ≤ pos_part b + neg_part a

-- `a.Cmp(b) < 0` and `a.Cmp(b) <= 0`.
abbrev pub ltb_ℤ : ℤ → ℤ → Bool
ltb_ℤ a b = ltb (pos_part a + neg_part b) (pos_part b + neg_part a)

abbrev pub leb_ℤ : ℤ → ℤ → Bool
leb_ℤ a b = leb (pos_part a + neg_part b) (pos_part b + neg_part a)

pub +ℤ_parts :
    (a b : ℤ)
    → pos_part (a +ℤ b) + neg_part a + neg_part b ≡ neg_part (a +ℤ b) + pos_part a + pos_part b
unfolding ◌+ℤ◌
+ℤ_parts a b = ground arith

pub -ℤ_parts :
    (a b : ℤ)
    → pos_part (a -ℤ b) + neg_part a + pos_part b ≡ neg_part (a -ℤ b) + pos_part a + neg_part b
unfolding ◌-ℤ◌
-ℤ_parts a b = ground arith

pub *ℤ_parts :
    (a b : ℤ)
    → pos_part (a *ℤ b) + (pos_part a * neg_part b + neg_part a * pos_part b)
      ≡ neg_part (a *ℤ b) + (pos_part a * pos_part b + neg_part a * neg_part b)
unfolding ◌*ℤ◌
*ℤ_parts a b = ground arith

pub eq_of_parts : (a b : ℤ) → pos_part a + neg_part b ≡ pos_part b + neg_part a → a ≡ b
eq_of_parts a b h = ground arith

pub ruleset int_laws = (arith, +ℤ_parts, -ℤ_parts, eq_of_parts)

-- A product with a number from `SetUint64`.
pub *ℤ_mono : (k : ℕ) (a b : ℤ) → a ≤ℤ b → pos k *ℤ a ≤ℤ pos k *ℤ b
*ℤ_mono k a b h = omega (int_laws, *ℤ_parts (pos k) a, *ℤ_parts (pos k) b, mul-le-mul_left k h)

pub *ℤ_nonneg : (k : ℕ) (a : ℤ) → pos 0 ≤ℤ a → pos 0 ≤ℤ pos k *ℤ a
*ℤ_nonneg k (pos n) h = omega (arith, *ℤ_parts (pos k) (pos n))
*ℤ_nonneg k (negsuc n) h = absurd (omega arith)

pub *ℤ-add_left : (k j : ℕ) (a : ℤ) → pos (k + j) *ℤ a ≡ pos k *ℤ a +ℤ pos j *ℤ a
*ℤ-add_left k j a =
    omega (int_laws, *ℤ_parts (pos (k + j)) a, *ℤ_parts (pos k) a, *ℤ_parts (pos j) a)

pub *ℤ-add : (k : ℕ) (a b : ℤ) → pos k *ℤ (a +ℤ b) ≡ pos k *ℤ a +ℤ pos k *ℤ b
*ℤ-add k a b = omega (
  int_laws,
  *ℤ_parts (pos k) a,
  *ℤ_parts (pos k) b,
  *ℤ_parts (pos k) (a +ℤ b),
  ap (λ (t : ℕ). k * t) (+ℤ_parts a b),
)

pub *ℤ-sub : (k : ℕ) (a b : ℤ) → pos k *ℤ (a -ℤ b) ≡ pos k *ℤ a -ℤ pos k *ℤ b
*ℤ-sub k a b = omega (
  int_laws,
  *ℤ_parts (pos k) a,
  *ℤ_parts (pos k) b,
  *ℤ_parts (pos k) (a -ℤ b),
  ap (λ (t : ℕ). k * t) (-ℤ_parts a b),
)

pub *ℤ-zero : (k : ℕ) → pos k *ℤ pos 0 ≡ pos 0
*ℤ-zero k = grind (int_laws, *ℤ_parts (pos k) (pos 0))

pub *ℤ-one : (k : ℕ) → pos k *ℤ pos 1 ≡ pos k
*ℤ-one k = grind (int_laws, *ℤ_parts (pos k) (pos 1))
