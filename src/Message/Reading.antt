-- ===== src/Message/Reading.antt =====
-- A reader of what `ParasCommon.Serialize` writes, which is told which of the fields are 0
-- (server/message/mes.go, lines 45 to 88).
use mefs_go_settlement.Base.{
  ℕ, ◌+◌, ◌-◌, ◌^◌, ◌<◌, ◌≤◌, ◌≡◌, ap, subst, ◌∙◌, arith, ltb, Bool, true, false, Bool-cases, List,
  ◌++◌, length, take, drop, take-append, drop-append, pos, pos_part, ok, inl, inr,
}
use mefs_go_settlement.Utils.Key.{bytes, number}
use mefs_go_settlement.Utils.Bytes.{length-bytes, number-bytes}
use mefs_go_settlement.Message.{ParasCommon, zeros, serialize}
use mefs_go_settlement.Message.Layout.{part}
use mefs_go_settlement.Message.Common.{common_layout, serialize_lem}

-- A number of `n` bytes, if there is one, for what reads the rest.
abbrev pub with_number : {A : Type 0} (n : ℕ) (present : Bool) → List ℕ → (ℕ → List ℕ → A) → A
with_number n true bs k = k (number 0 (take n bs)) (drop n bs)
with_number n false bs k = k 0 bs

abbrev pub read_common : (has_index has_g_index has_token_index : Bool) → List ℕ → ParasCommon
read_common has_index has_g_index has_token_index bs = with_number 8 has_index bs (λ index bs₁.
    with_number 8 has_g_index bs₁ (λ g_index bs₂.
      with_number 4 has_token_index bs₂ (λ token_index bs₃. with_number 32 true bs₃ (λ amount extra.
        record {
          index = index;
          g_index = g_index;
          token_index = token_index;
          amount = pos amount;
          extra = extra;
        }))))

with_number-bytes :
    {A : Type 0} (n v : ℕ) (rest : List ℕ) (k : ℕ → List ℕ → A)
    → v < 256 ^ n
    → k (number 0 (take n (bytes n v ++ rest))) (drop n (bytes n v ++ rest)) ≡ k v rest
with_number-bytes n v rest k h =
    let front : take n (bytes n v ++ rest) ≡ bytes n v =
      subst (λ m. take m (bytes n v ++ rest) ≡ bytes n v) (length-bytes n v)
        (take-append (bytes n v) rest) in
    let back : drop n (bytes n v ++ rest) ≡ rest =
      subst (λ m. drop m (bytes n v ++ rest) ≡ rest) (length-bytes n v)
        (drop-append (bytes n v) rest) in
    ap (λ t. k (number 0 t) (drop n (bytes n v ++ rest))) front
    ∙ ap (λ t. k (number 0 (bytes n v)) t) back
    ∙ ap (λ x. k x rest) (number-bytes n v h)

with_number-part :
    {A : Type 0} (n v : ℕ) (rest : List ℕ) (k : ℕ → List ℕ → A)
    → v < 256 ^ n
    → with_number n (ltb 0 v) (part n v ++ rest) k ≡ k v rest
with_number-part n v rest k h = elim (Bool-cases (ltb 0 v)) [
  | inl e ↦ rw e (with_number-bytes n v rest k h)
  | inr e ↦ rw e (ap (λ x. k x rest) (ground (arith, e)))
]

module _ (left_pad : List ℕ → ℕ → List ℕ)
    (pads : (bs : List ℕ) (n : ℕ)
      → length bs ≤ n
      → left_pad bs n ≡ zeros (n - length bs) ++ bs) where
  -- `Serialize` returns bytes from which all fields are read back by one who knows which of the first three
  -- are 0. The numbers fit their Go types, the amount is positive and has at most 256 bits, and
  -- `LeftPadBytes` puts zeros in front of what is shorter than asked.
  pub read_common-serialize :
      (index g_index token_index amount : ℕ) (extra : List ℕ)
      → index < 256 ^ 8
      → g_index < 256 ^ 8
      → token_index < 256 ^ 4
      → 0 < amount
      → amount < 256 ^ 32
      → let p : ParasCommon = record {
        index = index;
        g_index = g_index;
        token_index = token_index;
        amount = pos amount;
        extra = extra;
      } in
        (bs : List ℕ) × (serialize left_pad p ≡ ok bs)
        × (read_common (ltb 0 index) (ltb 0 g_index) (ltb 0 token_index) bs ≡ p)
  read_common-serialize index g_index token_index amount extra hi hg ht some_amount ha =
      let p : ParasCommon = record {
        index = index;
        g_index = g_index;
        token_index = token_index;
        amount = pos amount;
        extra = extra;
      } in
      (
        common_layout p,
        serialize_lem left_pad pads p (λ e. omega (arith, ap pos_part e, some_amount))
            (omega (arith, ha)),
        with_number-part 8 index _ _ hi
            ∙ with_number-part 8 g_index _ _ hg
            ∙ with_number-part 4 token_index _ _ ht
            ∙ with_number-bytes 32 (amount + 0) extra make (omega (arith, ha))
            ∙ ap (λ a. make a extra) (no_more amount),
      )
    where
      make : ℕ → List ℕ → ParasCommon
      make a x = record {
        index = index;
        g_index = g_index;
        token_index = token_index;
        amount = pos a;
        extra = x;
      }

      no_more : (n : ℕ) → n + 0 ≡ n
      no_more n = omega arith
