-- ===== src/Message/Layout.antt =====
-- The bytes that `Serialize` writes (server/message/mes.go).
use mefs_go_settlement.Base.{
  ℕ, zero, suc, ◌+◌, ◌-◌, ◌/◌, ◌%◌, ◌^◌, ◌<◌, ◌≤◌, ◌==◌, ◌≡◌, refl, sym, ap, subst, ◌∙◌, arith, ltb,
  if◌then◌else◌, true, false, Bool-cases, List, [], ◌∷◌, ◌++◌, length, length-append, take-all,
  take-append, drop-append, append_assoc, append-nil, ℤ, M, ok, panic, pure, methods, inl, inr,
  ◌>>◌,
}
use mefs_go_settlement.Utils.Key.{bytes}
use mefs_go_settlement.Utils.Bytes.{length-bytes}
use mefs_go_settlement.Message.{Buffer, zeros, copy, put, digits, magnitude, big_bytes, room, field}

pub length-zeros : (n : ℕ) → length (zeros n) ≡ n
length-zeros zero = refl
length-zeros (suc n) = ap suc (length-zeros n)

-- A buffer of which `done` has been written, with `m` places left.
abbrev pub filled : List ℕ → ℕ → Buffer
filled done m = record { buf = done ++ zeros m; offset = length done }

copy-all : (dst ys src : List ℕ) → length dst ≡ length src → copy (dst ++ ys) src ≡ src ++ ys
copy-all [] [] [] h = refl
copy-all [] (y ∷ ys) [] h = refl
copy-all [] ys (s ∷ src) h = absurd (omega (arith, h))
copy-all (d ∷ dst) ys [] h = absurd (omega (arith, h))
copy-all (d ∷ dst) ys (s ∷ src) h = ap (λ t. s ∷ t) (copy-all dst ys src (omega (arith, h)))

zeros-append : (n m : ℕ) → zeros (n + m) ≡ zeros n ++ zeros m
zeros-append zero m = ap zeros (omega arith)
zeros-append (suc n) m = ap zeros (suc_add n m) ∙ ap (λ t. 0 ∷ t) (zeros-append n m)
  where
    suc_add : (n m : ℕ) → suc n + m ≡ suc (n + m)
    suc_add n m = omega arith

copy-zeros : (src : List ℕ) (m : ℕ) → copy (zeros (length src + m)) src ≡ src ++ zeros m
copy-zeros src m =
    ap (λ d. copy d src) (zeros-append (length src) m)
    ∙ copy-all (zeros (length src)) (zeros m) src (length-zeros (length src))

fits :
    (done src : List ℕ) (m : ℕ)
    → ltb (length (done ++ zeros (length src + m))) (length done + length src) ≡ false
fits done src m =
    ground (arith, length-append done (zeros (length src + m)), length-zeros (length src + m))

-- What fits is written behind what has been written.
pub put-filled :
    (done src : List ℕ) (m : ℕ)
    → put (length src) src (filled done (length src + m)) ≡ (ok tt, filled (done ++ src) m)
unfolding put methods
put-filled done src m =
    rw
      (
        fits done src m,
        take-append done (zeros (length src + m)),
        drop-append done (zeros (length src + m)),
        take-all src,
        copy-zeros src m,
        sym (append_assoc done src (zeros m)),
        length-append done src,
      )
      refl

pub put-full :
    (n : ℕ) (done src : List ℕ) (m : ℕ) → m < n → put n src (filled done m) ≡ (panic, filled done m)
unfolding put methods
put-full n done src m h = rw (full h) refl
  where
    full : m < n → ltb (length (done ++ zeros m)) (length done + n) ≡ true
    full h = ground (arith, h, length-append done (zeros m), length-zeros m)

pub put-exact :
    (n : ℕ) (done src : List ℕ) (m : ℕ)
    → length src ≡ n
    → put n src (filled done (n + m)) ≡ (ok tt, filled (done ++ src) m)
put-exact n done src m h =
    subst (λ k. put k src (filled done (k + m)) ≡ (ok tt, filled (done ++ src) m)) h
      (put-filled done src m)

-- A number that is not 0.
abbrev pub part : (n v : ℕ) → List ℕ
part n v = if ltb 0 v then bytes n v else []

pub length-part : (n v : ℕ) → length (part n v) ≡ room n v
length-part n v = elim (Bool-cases (ltb 0 v)) [
  | inl e ↦ rw e (length-bytes n v)
  | inr e ↦ rw e refl
]

pub field-filled :
    (n v : ℕ) (done : List ℕ) (m : ℕ)
    → field n v (filled done (room n v + m)) ≡ (ok tt, filled (done ++ part n v) m)
unfolding field pure
field-filled n v done m = elim (Bool-cases (ltb 0 v)) [
  | inl e ↦ rw (e, field) (put-exact n done (bytes n v) m (length-bytes n v))
  | inr e ↦ rw (e, field) (rw (append-nil done) (ap (λ k. (ok tt, filled done k)) (omega arith)))
]

-- What follows a call that went well.
pub go_on :
    {A : Type 0} (m : M Buffer (Unit {0})) (k : M Buffer A) (s s' : Buffer)
    → m s ≡ (ok tt, s')
    → (m >> k) s ≡ k s'
unfolding ◌>>◌ methods
go_on m k s s' h = rw h refl

pub stop :
    {A : Type 0} (m : M Buffer (Unit {0})) (k : M Buffer A) (s s' : Buffer)
    → m s ≡ (panic, s')
    → ((m >> k) s).0 ≡ panic
unfolding ◌>>◌ methods
stop m k s s' h = rw h refl

-- ## Amounts

zeros-suc : (n : ℕ) → zeros (suc n) ≡ zeros n ++ 0 ∷ []
zeros-suc zero = refl
zeros-suc (suc n) = ap (λ t. 0 ∷ t) (zeros-suc n)

bytes-zero : (n : ℕ) → bytes n 0 ≡ zeros n
unfolding bytes
bytes-zero zero = refl
bytes-zero (suc n) = ap (λ t. t ++ 0 ∷ []) (bytes-zero n) ∙ sym (zeros-suc n)

digits-zero : (steps : ℕ) → digits steps 0 ≡ []
unfolding digits
digits-zero zero = refl
digits-zero (suc steps) = refl

-- `d` behind zeros is the last `n` bytes of `a`.
abbrev Padded : (n a : ℕ) (d : List ℕ) → Type 0
Padded n a d = (length d ≤ n) × (zeros (n - length d) ++ d ≡ bytes n a)

Padded-zero : (n steps a : ℕ) → a ≡ 0 → Padded n a (digits steps a)
Padded-zero n steps a h =
    rw (h, digits-zero steps)
      (omega arith, append-nil (zeros (n - 0)) ∙ ap zeros (omega arith) ∙ sym (bytes-zero n))

Padded-next : (n a : ℕ) (d : List ℕ) → Padded n (a / 256) d → Padded (suc n) a (d ++ (a % 256) ∷ [])
unfolding bytes
Padded-next n a d (short, same) = (
  omega (arith, short, length-append d ((a % 256) ∷ [])),
  ap (λ k. zeros k ++ (d ++ (a % 256) ∷ [])) (less (length-append d ((a % 256) ∷ [])))
      ∙ sym (append_assoc (zeros (n - length d)) d ((a % 256) ∷ []))
      ∙ ap (λ t. t ++ (a % 256) ∷ []) same,
)
  where
    less : {x : ℕ} → x ≡ length d + 1 → suc n - x ≡ n - length d
    less e = omega (arith, e)

-- `big.Int.Bytes` behind zeros is the number in `n` bytes, if it fits.
digits_lem : (n steps a : ℕ) → a ≤ steps → a < 256 ^ n → Padded n a (digits steps a)
unfolding digits
digits_lem zero steps a h l = Padded-zero zero steps a (omega (arith, l))
digits_lem (suc n) zero a h l = Padded-zero (suc n) zero a (omega (arith, h))
digits_lem (suc n) (suc steps) a h l = elim (Bool-cases (a == 0)) [
  | inl e ↦ Padded-zero (suc n) (suc steps) a (ground (arith, e))
  | inr e ↦
      let small : a / 256 ≤ steps = ground (arith, e, h) in
      rw (e, digits)
        (Padded-next n a (digits steps (a / 256))
          (digits_lem n steps (a / 256) small (omega (arith, l))))
]

module _ (left_pad : List ℕ → ℕ → List ℕ)
    (pads : (bs : List ℕ) (n : ℕ)
      → length bs ≤ n
      → left_pad bs n ≡ zeros (n - length bs) ++ bs) where
  pub padded : (a : ℤ) → magnitude a < 256 ^ 32 → left_pad (big_bytes a) 32 ≡ bytes 32 (magnitude a)
  unfolding big_bytes
  padded a l =
      let d = digits_lem 32 (magnitude a) (magnitude a) (omega arith) l in
      pads (digits (magnitude a) (magnitude a)) 32 d.0 ∙ d.1
