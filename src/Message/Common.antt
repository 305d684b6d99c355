-- ===== src/Message/Common.antt =====
-- What `ParasCommon.Serialize` writes (server/message/mes.go, lines 45 to 87).
use native.Mathlib.Decide.{dec_lt}
use mefs_go_settlement.Base.{
  ℕ, ◌+◌, ◌-◌, ◌^◌, ◌<◌, ◌≤◌, ◌≡◌, ◌≢◌, sym, ap, ◌∙◌, arith, List, [], ◌++◌, length, append_assoc,
  append-nil, ℤ, pos, M, ok, panic, gets, ◌>>◌,
}
use mefs_go_settlement.Utils.Key.{bytes}
use mefs_go_settlement.Utils.Bytes.{length-bytes}
use mefs_go_settlement.Message.{
  ParasCommon, Buffer, zeros, put, magnitude, big_bytes, room, write_common, serialize,
}
use mefs_go_settlement.Message.Layout.{
  filled, part, put-filled, put-full, put-exact, field-filled, go_on, stop, padded,
}

-- The fields one after the other, numbers that are 0 left out.
abbrev pub common_layout : ParasCommon → List ℕ
common_layout p =
    part 8 p.index
    ++ (part 8 p.g_index ++ (part 4 p.token_index ++ (bytes 32 (magnitude p.amount) ++ p.extra)))

module _ (left_pad : List ℕ → ℕ → List ℕ)
    (pads : (bs : List ℕ) (n : ℕ) → length bs ≤ n → left_pad bs n ≡ zeros (n - length bs) ++ bs)
    (p : ParasCommon) where
  -- What is written before the amount.
  abbrev head : List ℕ
  head = (part 8 p.index ++ part 8 p.g_index) ++ part 4 p.token_index

  abbrev rest : M Buffer (List ℕ)
  rest =
      put 32 (left_pad (big_bytes p.amount) 32)
      >> (put (length p.extra) p.extra >> gets (λ b. b.buf))

  write-head :
      (m : ℕ)
      → write_common left_pad p
          (filled [] (room 8 p.index + (room 8 p.g_index + (room 4 p.token_index + m))))
        ≡ rest (filled head m)
  unfolding write_common
  write-head m =
      go_on _ _ _ _ (field-filled 8 p.index [] (room 8 p.g_index + (room 4 p.token_index + m)))
      ∙ go_on _ _ _ _ (field-filled 8 p.g_index (part 8 p.index) (room 4 p.token_index + m))
      ∙ go_on _ _ _ _ (field-filled 4 p.token_index (part 8 p.index ++ part 8 p.g_index) m)

  -- The amount and what is behind it, where there is room for both.
  write-rest :
      (src : List ℕ)
      → length src ≡ 32
      → (put 32 src >> (put (length p.extra) p.extra >> gets (λ b. b.buf)))
          (filled head (32 + length p.extra))
        ≡ (ok (((head ++ src) ++ p.extra) ++ []), filled ((head ++ src) ++ p.extra) 0)
  unfolding gets
  write-rest src h =
      go_on _ (put (length p.extra) p.extra >> gets (λ b. b.buf)) _ _
        (put-exact 32 head src (length p.extra) h)
      ∙ go_on _ (gets (λ b. b.buf)) _ _ (
          ap (λ m. put (length p.extra) p.extra (filled (head ++ src) m)) (omega arith)
          ∙ put-filled (head ++ src) p.extra 0)

  flat :
      (src : List ℕ)
      → ((head ++ src) ++ p.extra) ++ []
        ≡ part 8 p.index ++ (part 8 p.g_index ++ (part 4 p.token_index ++ (src ++ p.extra)))
  flat src =
      append-nil ((head ++ src) ++ p.extra)
      ∙ append_assoc head src p.extra
      ∙ append_assoc (part 8 p.index ++ part 8 p.g_index) (part 4 p.token_index) (src ++ p.extra)
      ∙ append_assoc (part 8 p.index) (part 8 p.g_index) (part 4 p.token_index ++ (src ++ p.extra))

  -- `Serialize` writes every number that is not 0, the amount in 32 bytes, and what is extra, in the order
  -- of the fields, when the amount is not 0 and has at most 256 bits and `LeftPadBytes` puts zeros in
  -- front of what is shorter than asked.
  pub serialize_lem :
      p.amount ≢ pos 0 → magnitude p.amount < 256 ^ 32 → serialize left_pad p ≡ ok (common_layout p)
  unfolding serialize
  serialize_lem some_amount fits =
      let src = left_pad (big_bytes p.amount) 32 in
      let room_32 : room 32 (magnitude p.amount) ≡ 32 = ground (arith, some_amount) in
      let same : src ≡ bytes 32 (magnitude p.amount) = padded left_pad pads p.amount fits in
      ap
        (λ k.
          (write_common left_pad p (
            filled [] (
              room 8 p.index
              + (room 8 p.g_index + (room 4 p.token_index + (k + length p.extra)))))).0)
        room_32
      ∙ ap (λ x. x.0) (write-head (32 + length p.extra))
      ∙ ap (λ x. x.0) (write-rest src (ap length same ∙ length-bytes 32 (magnitude p.amount)))
      ∙ ap ok (flat src)
      ∙ ap
          (λ t.
            ok (part 8 p.index ++ (part 8 p.g_index ++ (part 4 p.token_index ++ (t ++ p.extra)))))
          same

  -- The amount and what is behind it, where there is room for the latter only.
  overflow :
      (src : List ℕ)
      → length src ≡ 32
      → ((put 32 src >> (put (length p.extra) p.extra >> gets (λ b. b.buf)))
          (filled head (length p.extra))).0
        ≡ panic
  overflow src h = elim (dec_lt (length p.extra) 32) [
    | yes l ↦ stop _ _ _ _ (put-full 32 head src (length p.extra) l)
    | no g ↦
        let split : length p.extra ≡ 32 + (length p.extra - 32) = more g in
        ap (λ x. x.0)
          (go_on _ (put (length p.extra) p.extra >> gets (λ b. b.buf)) _ _ (
            ap (λ m. put 32 src (filled head m)) split
            ∙ put-exact 32 head src (length p.extra - 32) h))
        ∙ stop _ _ _ _
            (put-full (length p.extra) (head ++ src) p.extra (length p.extra - 32) (less g))
  ]
    where
      more : ¬ (length p.extra < 32) → length p.extra ≡ 32 + (length p.extra - 32)
      more g = omega arith

      less : ¬ (length p.extra < 32) → length p.extra - 32 < length p.extra
      less g = omega arith

  -- With an amount of 0 `Serialize` ends in a panic, whatever the other fields are, when `LeftPadBytes` puts
  -- zeros in front of what is shorter than asked.
  pub serialize-zero : p.amount ≡ pos 0 → serialize left_pad p ≡ panic
  unfolding serialize
  serialize-zero none =
      let src = left_pad (big_bytes p.amount) 32 in
      let no_room : room 32 (magnitude p.amount) ≡ 0 = ap (λ a. room 32 (magnitude a)) none in
      let same : src ≡ bytes 32 (magnitude p.amount) =
        padded left_pad pads p.amount (rw none (ground arith)) in
      ap
        (λ k.
          (write_common left_pad p (
            filled [] (
              room 8 p.index
              + (room 8 p.g_index + (room 4 p.token_index + (k + length p.extra)))))).0)
        no_room
      ∙ ap (λ x. x.0) (write-head (0 + length p.extra))
      ∙ ap (λ m. (rest (filled head m)).0) (omega arith)
      ∙ overflow src (ap length same ∙ length-bytes 32 (magnitude p.amount))

-- Two messages are written as the same bytes: one with an index and no group index, and one with the
-- latter only. The amount is not 0 and has at most 256 bits, and `LeftPadBytes` puts zeros in front of
-- what is shorter than asked.
pub serialize-ambiguous :
    (left_pad : List ℕ → ℕ → List ℕ)
    → ((bs : List ℕ) (n : ℕ) → length bs ≤ n → left_pad bs n ≡ zeros (n - length bs) ++ bs)
    → (index token_index : ℕ) (amount : ℤ) (extra : List ℕ) → amount ≢ pos 0
    → magnitude amount < 256 ^ 32
    → serialize left_pad (record {
      index = index;
      g_index = 0;
      token_index = token_index;
      amount = amount;
      extra = extra;
    })
      ≡ serialize left_pad (record {
        index = 0;
        g_index = index;
        token_index = token_index;
        amount = amount;
        extra = extra;
      })
serialize-ambiguous left_pad pads index token_index amount extra some_amount fits =
    serialize_lem left_pad pads _ some_amount fits
    ∙ sym (serialize_lem left_pad pads _ some_amount fits)
