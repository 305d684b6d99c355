-- ===== src/Message/Tests.antt =====
-- Messages on concrete fields.
use mefs_go_settlement.Base.{
  ℕ, ◌-◌, ◌≤◌, ◌≡◌, ◌≢◌, refl, ap, arith, true, false, List, [], ◌∷◌, ◌++◌, length, pos, pos_part,
  ok, panic, methods,
}
use mefs_go_settlement.Utils.Key.{bytes}
use mefs_go_settlement.Message.{ParasCommon, zeros, serialize, serialize_withdraw, serialize_signed}
use mefs_go_settlement.Message.Common.{
  common_layout, serialize_lem, serialize-zero, serialize-ambiguous,
}
use mefs_go_settlement.Message.Withdraw.{serialize_withdraw_lem}
use mefs_go_settlement.Message.Reading.{read_common, read_common-serialize}
use mefs_go_settlement.Message.Signed.{serialize_signed_lem}

abbrev left_pad : List ℕ → ℕ → List ℕ
left_pad bs n = zeros (n - length bs) ++ bs

pads : (bs : List ℕ) (n : ℕ) → length bs ≤ n → left_pad bs n ≡ zeros (n - length bs) ++ bs
pads bs n h = refl

-- Index 3, no group index, token 1, the amount 256.
abbrev message : ParasCommon
message = record { index = 3; g_index = 0; token_index = 1; amount = pos 256; extra = 7 ∷ [] }

some_amount : pos 256 ≢ pos 0
some_amount e = omega (arith, ap pos_part e)

serialize_lem_example :
    serialize left_pad message
    ≡ ok ((0 ∷ 0 ∷ 0 ∷ 0 ∷ 0 ∷ 0 ∷ 0 ∷ 3 ∷ 0 ∷ 0 ∷ 0 ∷ 1 ∷ zeros 30) ++ 1 ∷ 0 ∷ 7 ∷ [])
unfolding bytes
serialize_lem_example = serialize_lem left_pad pads message some_amount (omega arith)

-- The same by running the code.
serialize-run :
    serialize left_pad message
    ≡ ok ((0 ∷ 0 ∷ 0 ∷ 0 ∷ 0 ∷ 0 ∷ 0 ∷ 3 ∷ 0 ∷ 0 ∷ 0 ∷ 1 ∷ zeros 30) ++ 1 ∷ 0 ∷ 7 ∷ [])
unfolding serialize methods
serialize-run = refl

serialize-zero_example : serialize left_pad (record message { amount = pos 0 }) ≡ panic
serialize-zero_example = serialize-zero left_pad pads (record message { amount = pos 0 }) refl

serialize-ambiguous_example :
    serialize left_pad message ≡ serialize left_pad (record message { index = 0; g_index = 3 })
serialize-ambiguous_example =
    serialize-ambiguous left_pad pads 3 1 (pos 256) (7 ∷ []) some_amount (omega arith)

serialize_withdraw_lem_example :
    serialize_withdraw left_pad
      (record { index = 3; token_index = 0; amount = pos 256; lost = pos 0 })
    ≡ ok ((0 ∷ 0 ∷ 0 ∷ 0 ∷ 0 ∷ 0 ∷ 0 ∷ 3 ∷ zeros 30) ++ 1 ∷ 0 ∷ [])
unfolding bytes
serialize_withdraw_lem_example =
    serialize_withdraw_lem left_pad pads
      (record { index = 3; token_index = 0; amount = pos 256; lost = pos 0 }) (omega arith)
      (omega arith)

read_common-serialize_example :
    (bs : List ℕ) × (serialize left_pad message ≡ ok bs)
    × (read_common true false true bs ≡ message)
read_common-serialize_example =
    read_common-serialize left_pad pads 3 0 1 256 (7 ∷ []) (omega arith) (omega arith) (omega arith)
      (omega arith) (omega arith)

serialize_signed_lem_example :
    serialize_signed left_pad (record { paras = message; auth = (5 ∷ 6 ∷ []) ∷ (8 ∷ 9 ∷ []) ∷ [] })
    ≡ ok (common_layout message ++ 5 ∷ 6 ∷ 8 ∷ 9 ∷ [])
serialize_signed_lem_example =
    serialize_signed_lem left_pad pads message ((5 ∷ 6 ∷ []) ∷ (8 ∷ 9 ∷ []) ∷ []) some_amount
      (omega arith) (refl, (refl, tt))
