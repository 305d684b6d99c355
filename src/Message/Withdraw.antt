-- ===== src/Message/Withdraw.antt =====
-- What `ParasProWithdraw.Serialize` writes (server/message/mes.go, lines 124 to 166).
use mefs_go_settlement.Base.{
  ℕ, ◌+◌, ◌-◌, ◌^◌, ◌<◌, ◌≤◌, ◌≡◌, ap, ◌∙◌, arith, ltb, Bool-cases, List, [], ◌++◌, length,
  append_assoc, append-nil, ℤ, ok, pure, gets, inl, inr,
}
use mefs_go_settlement.Utils.Key.{bytes}
use mefs_go_settlement.Utils.Bytes.{length-bytes}
use mefs_go_settlement.Message.{
  ParasProWithdraw, zeros, magnitude, room, amount_field, write_withdraw, serialize_withdraw,
}
use mefs_go_settlement.Message.Layout.{filled, part, put-exact, field-filled, go_on, padded}

-- The fields one after the other, those that are 0 left out.
abbrev pub withdraw_layout : ParasProWithdraw → List ℕ
withdraw_layout w =
    part 8 w.index
    ++ (part 4 w.token_index ++ (part 32 (magnitude w.amount) ++ part 32 (magnitude w.lost)))

module _ (left_pad : List ℕ → ℕ → List ℕ)
    (pads : (bs : List ℕ) (n : ℕ)
      → length bs ≤ n
      → left_pad bs n ≡ zeros (n - length bs) ++ bs) where
  amount-filled :
      (a : ℤ) (done : List ℕ) (m : ℕ)
      → magnitude a < 256 ^ 32
      → amount_field left_pad a (filled done (room 32 (magnitude a) + m))
        ≡ (ok tt, filled (done ++ part 32 (magnitude a)) m)
  unfolding amount_field pure
  amount-filled a done m fits =
      let same = padded left_pad pads a fits in
      elim (Bool-cases (ltb 0 (magnitude a))) [
        | inl e ↦
            rw (e, amount_field)
              (rw same
                (put-exact 32 done (bytes 32 (magnitude a)) m (length-bytes 32 (magnitude a))))
        | inr e ↦
            rw (e, amount_field)
              (rw (append-nil done) (ap (λ k. (ok tt, filled done k)) (omega arith)))
      ]

  -- `Serialize` never panics: it writes every number that is not 0 in the order of the fields, the amounts
  -- without their signs in 32 bytes each, when the amounts have at most 256 bits and `LeftPadBytes` puts
  -- zeros in front of what is shorter than asked.
  pub serialize_withdraw_lem :
      (w : ParasProWithdraw)
      → magnitude w.amount < 256 ^ 32
      → magnitude w.lost < 256 ^ 32
      → serialize_withdraw left_pad w ≡ ok (withdraw_layout w)
  unfolding serialize_withdraw write_withdraw gets
  serialize_withdraw_lem w fits_amount fits_lost =
      let a = part 8 w.index in
      let b = part 4 w.token_index in
      let c = part 32 (magnitude w.amount) in
      let d = part 32 (magnitude w.lost) in
      let room_c = room 32 (magnitude w.amount) in
      let room_d = room 32 (magnitude w.lost) in
      ap (λ x. x.0)
        (go_on _ _ _ _ (field-filled 8 w.index [] (room 4 w.token_index + (room_c + room_d)))
          ∙ go_on _ _ _ _ (field-filled 4 w.token_index a (room_c + room_d))
          ∙ go_on _ _ _ _ (amount-filled w.amount (a ++ b) room_d fits_amount)
          ∙ go_on _ (gets (λ b. b.buf)) _ _ (
              ap (λ m. amount_field left_pad w.lost (filled ((a ++ b) ++ c) m)) (omega arith)
              ∙ amount-filled w.lost ((a ++ b) ++ c) 0 fits_lost))
      ∙ ap ok (
          append-nil (((a ++ b) ++ c) ++ d) ∙ append_assoc (a ++ b) c d ∙ append_assoc a b (c ++ d))
