-- ===== src/Utils/Bytes.antt =====
-- The bytes of a number and the number that bytes spell (utils/key.go, lines 22 to 34; binary.BigEndian
-- and big.Int's Bytes in server/message/mes.go).
use mefs_go_settlement.Base.{
  ℕ, zero, suc, ◌+◌, ◌*◌, ◌/◌, ◌%◌, ◌^◌, ◌<◌, ◌≡◌, refl, ap, ◌∙◌, arith, List, [], ◌∷◌, ◌++◌,
  length, length-append,
}
use mefs_go_settlement.Utils.Key.{number, bytes}

-- Every element is a byte.
abbrev pub AreBytes : List ℕ → Type 0
AreBytes [] = Unit
AreBytes (b ∷ bs) = (b < 256) × AreBytes bs

pub append-AreBytes : (xs ys : List ℕ) → AreBytes xs → AreBytes ys → AreBytes (xs ++ ys)
append-AreBytes [] ys hx hy = hy
append-AreBytes (x ∷ xs) ys hx hy = (hx.0, append-AreBytes xs ys hx.1 hy)

pub bytes-AreBytes : (n a : ℕ) → AreBytes (bytes n a)
unfolding bytes
bytes-AreBytes zero a = tt
bytes-AreBytes (suc n) a =
    append-AreBytes (bytes n (a / 256)) (a % 256 ∷ []) (bytes-AreBytes n (a / 256))
      (omega arith, tt)

pub length-bytes : (n a : ℕ) → length (bytes n a) ≡ n
unfolding bytes
length-bytes zero a = refl
length-bytes (suc n) a =
    omega (arith, length-append (bytes n (a / 256)) (a % 256 ∷ []), length-bytes n (a / 256))

pub number-append : (acc : ℕ) (xs ys : List ℕ) → number acc (xs ++ ys) ≡ number (number acc xs) ys
unfolding number
number-append acc [] ys = refl
number-append acc (x ∷ xs) ys = number-append (acc * 256 + x) xs ys

-- The last `n` bytes of a number that has no more spell it.
pub number-bytes : (n a : ℕ) → a < 256 ^ n → number 0 (bytes n a) ≡ a
unfolding number bytes
number-bytes zero a h = omega arith
number-bytes (suc n) a h =
    number-append 0 (bytes n (a / 256)) (a % 256 ∷ [])
    ∙ ap (λ x. x * 256 + a % 256) (number-bytes n (a / 256) (omega (arith, h)))
    ∙ omega arith
