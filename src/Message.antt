-- ===== src/Message.antt =====
-- server/message/mes.go: the parameters of messages and the bytes they are written as. A Go slice that
-- is written through is a `Buffer`, with the place that is written next.
pub mod Layout
pub mod Common
pub mod Withdraw
pub mod Reading
pub mod Signed
mod Tests
use mefs_go_settlement.Base.{
  ℕ, zero, suc, ◌+◌, ◌*◌, ◌/◌, ◌%◌, ◌==◌, ltb, if◌then◌else◌, Bool, true, false, List, [], ◌∷◌,
  ◌++◌, length, take, drop, ℤ, pos, negsuc, pos_part, neg_part, M, Result, ok, err, panic, pure,
  gets, modify, crash, ◌>>=◌, ◌>>◌,
}
use mefs_go_settlement.Utils.Key.{bytes}

pub record ParasCommon : Type 0 where
  pub index : ℕ
  pub g_index : ℕ
  pub token_index : ℕ
  pub amount : ℤ
  pub extra : List ℕ

pub record SignedParasCommon : Type 0 where
  pub paras : ParasCommon
  pub auth : List (List ℕ)

pub record ParasProWithdraw : Type 0 where
  pub index : ℕ
  pub token_index : ℕ
  pub amount : ℤ
  pub lost : ℤ

pub record Buffer : Type 0 where
  pub buf : List ℕ
  pub offset : ℕ

-- What `make` returns.
abbrev pub zeros : ℕ → List ℕ
zeros zero = []
zeros (suc n) = 0 ∷ zeros n

abbrev pub new_buffer : ℕ → Buffer
new_buffer n = record { buf = zeros n; offset = 0 }

-- `copy`, which stops at the end of the shorter.
abbrev pub copy : (dst src : List ℕ) → List ℕ
copy [] src = []
copy (d ∷ ds) [] = d ∷ ds
copy (d ∷ ds) (s ∷ ss) = s ∷ copy ds ss

-- `copy(buf[offset:offset+n], src)` and `offset += n`. A slice past the end is a panic.
unfoldable pub put : (n : ℕ) (src : List ℕ) → M Buffer (Unit {0})
put n src = do
  b ← gets (λ b. b)
  (if ltb (length b.buf) (b.offset + n)
      then crash
      else modify (λ b. record {
        buf = take b.offset b.buf ++ copy (drop b.offset b.buf) (take n src);
        offset = b.offset + n;
      }))

-- `big.Int.Bytes`: the bytes of the absolute value, with no leading zero. As many steps as the number
-- are enough.
unfoldable pub digits : (steps : ℕ) → ℕ → List ℕ
digits zero a = []
digits (suc n) a = elim (a == 0) [ true ↦ [] | false ↦ digits n (a / 256) ++ (a % 256) ∷ [] ]

-- The absolute value.
abbrev pub magnitude : ℤ → ℕ
magnitude a = pos_part a + neg_part a

unfoldable pub big_bytes : ℤ → List ℕ
unfolding digits
big_bytes a = digits (magnitude a) (magnitude a)

-- The room that a number takes, which is left out when it is 0.
abbrev pub room : (n v : ℕ) → ℕ
room n v = if ltb 0 v then n else 0

unfoldable pub field : (n v : ℕ) → M Buffer (Unit {0})
unfolding put bytes
field n v = if ltb 0 v then put n (bytes n v) else pure tt

abbrev pub common_len : ParasCommon → ℕ
common_len p =
    room 8 p.index
    + (room 8 p.g_index + (room 4 p.token_index + (room 32 (magnitude p.amount) + length p.extra)))

abbrev pub withdraw_len : ParasProWithdraw → ℕ
withdraw_len w =
    room 8 w.index
    + (room 4 w.token_index + (room 32 (magnitude w.amount) + room 32 (magnitude w.lost)))

-- The length of the first signature, which all are given.
abbrev pub sig_len : List (List ℕ) → ℕ
sig_len [] = 0
sig_len (a ∷ rest) = length a

unfoldable pub write_all : (n : ℕ) → List (List ℕ) → M Buffer (Unit {0})
unfolding put
write_all n [] = pure tt
write_all n (a ∷ rest) = put n a >> write_all n rest

unfoldable pub write_signed : (pbuf : List ℕ) (auth : List (List ℕ)) → M Buffer (List ℕ)
unfolding put write_all
write_signed pbuf auth = do put (length pbuf) pbuf; write_all (sig_len auth) auth; gets (λ b. b.buf)

-- `left_pad` is `LeftPadBytes` of github.com/ethereum/go-ethereum/common.
module _ (left_pad : List ℕ → ℕ → List ℕ) where
  unfoldable pub write_common : ParasCommon → M Buffer (List ℕ)
  unfolding field put big_bytes
  write_common p = do
    field 8 p.index
    field 8 p.g_index
    field 4 p.token_index
    put 32 (left_pad (big_bytes p.amount) 32)
    put (length p.extra) p.extra
    gets (λ b. b.buf)

  -- `ParasCommon.Serialize`
  unfoldable pub serialize : ParasCommon → Result (List ℕ)
  unfolding write_common
  serialize p = (write_common p (new_buffer (common_len p))).0

  -- An amount that is left out when it is 0.
  unfoldable pub amount_field : ℤ → M Buffer (Unit {0})
  unfolding put big_bytes
  amount_field a = if ltb 0 (magnitude a) then put 32 (left_pad (big_bytes a) 32) else pure tt

  unfoldable pub write_withdraw : ParasProWithdraw → M Buffer (List ℕ)
  unfolding field amount_field
  write_withdraw w = do
    field 8 w.index
    field 4 w.token_index
    amount_field w.amount
    amount_field w.lost
    gets (λ b. b.buf)

  -- `ParasProWithdraw.Serialize`
  unfoldable pub serialize_withdraw : ParasProWithdraw → Result (List ℕ)
  unfolding write_withdraw
  serialize_withdraw w = (write_withdraw w (new_buffer (withdraw_len w))).0

  -- `SignedParasCommon.Serialize`
  unfoldable pub serialize_signed : SignedParasCommon → Result (List ℕ)
  unfolding serialize write_signed
  serialize_signed a = elim (serialize a.paras) [
    | panic ↦ panic
    | err e ↦ err e
    | ok pbuf ↦
        (write_signed pbuf a.auth (new_buffer (length pbuf + sig_len a.auth * length a.auth))).0
  ]
