-- ===== src/Message/Signed.antt =====
-- What `SignedParasCommon.Serialize` writes (server/message/mes.go, lines 95 to 115).
use mefs_go_settlement.Base.{
  ℕ, suc, ◌+◌, ◌-◌, ◌*◌, ◌^◌, ◌<◌, ◌≤◌, ◌≡◌, ◌≢◌, sym, ap, ◌∙◌, arith, List, [], ◌∷◌, ◌++◌, length,
  append_assoc, append-nil, pos, ok, pure, gets,
}
use mefs_go_settlement.Message.{
  ParasCommon, zeros, new_buffer, put, magnitude, sig_len, write_all, write_signed,
  serialize_signed,
}
use mefs_go_settlement.Message.Layout.{filled, put-filled, put-exact, go_on}
use mefs_go_settlement.Message.Common.{common_layout, serialize_lem}

-- The signatures one after the other.
abbrev pub joined : List (List ℕ) → List ℕ
joined [] = []
joined (a ∷ rest) = a ++ joined rest

-- Every signature has `n` bytes.
abbrev pub AllOfLength : (n : ℕ) → List (List ℕ) → Type 0
AllOfLength n [] = Unit
AllOfLength n (a ∷ rest) = (length a ≡ n) × AllOfLength n rest

module _ (left_pad : List ℕ → ℕ → List ℕ) where
  write_all-filled :
      (n : ℕ) (auth : List (List ℕ)) (done : List ℕ)
      → AllOfLength n auth
      → write_all n auth (filled done (n * length auth)) ≡ (ok tt, filled (done ++ joined auth) 0)
  unfolding write_all pure
  write_all-filled n [] done h =
      ap (λ k. (ok tt, filled done k)) (times_zero n)
      ∙ ap (λ t. (ok tt, filled t 0)) (sym (append-nil done))
    where
      times_zero : (n : ℕ) → n * 0 ≡ 0
      times_zero n = omega arith
  write_all-filled n (a ∷ rest) done h =
      ap (λ m. write_all n (a ∷ rest) (filled done m)) (times_suc n (length rest))
      ∙ go_on (put n a) (write_all n rest) _ _ (put-exact n done a (n * length rest) h.0)
      ∙ write_all-filled n rest (done ++ a) h.1
      ∙ ap (λ t. (ok tt, filled t 0)) (append_assoc done a (joined rest))
    where
      times_suc : (n k : ℕ) → n * suc k ≡ n + n * k
      times_suc n k = omega arith

  write_signed_lem :
      (pbuf : List ℕ) (auth : List (List ℕ))
      → AllOfLength (sig_len auth) auth
      → (write_signed pbuf auth (new_buffer (length pbuf + sig_len auth * length auth))).0
        ≡ ok (pbuf ++ joined auth)
  unfolding write_signed gets
  write_signed_lem pbuf auth h =
      let n = sig_len auth in
      ap (λ x. x.0)
        (go_on _ _ _ _ (put-filled [] pbuf (n * length auth))
          ∙ go_on _ (gets (λ b. b.buf)) _ _ (write_all-filled n auth pbuf h))
      ∙ ap ok (append-nil (pbuf ++ joined auth))

  -- `Serialize` writes the parameters and then the signatures, when these are all as long as the first, the
  -- amount is not 0 and has at most 256 bits, and `LeftPadBytes` puts zeros in front of what is shorter
  -- than asked.
  pub serialize_signed_lem :
      (pads : (bs : List ℕ) (n : ℕ) → length bs ≤ n → left_pad bs n ≡ zeros (n - length bs) ++ bs)
      (p : ParasCommon) (auth : List (List ℕ))
      → p.amount ≢ pos 0
      → magnitude p.amount < 256 ^ 32
      → AllOfLength (sig_len auth) auth
      → serialize_signed left_pad (record { paras = p; auth = auth })
        ≡ ok (common_layout p ++ joined auth)
  unfolding serialize_signed
  serialize_signed_lem pads p auth some_amount fits h =
      rw (serialize_lem left_pad pads p some_amount fits, serialize_signed)
        (write_signed_lem (common_layout p) auth h)
