-- ===== src/Pledge/Shares.antt =====
-- What the pool owes to each role in one token, and the sum of it (server/contract/pledge.go).
use mefs_go_settlement.Base.{
  ℕ, ◌≡◌, ◌≢◌, refl, sym, arith, ◌&&◌, ltb_ℤ, List, [], ◌∷◌, Dict, ℤ, pos, ◌+ℤ◌, ◌-ℤ◌, ◌*ℤ◌, ◌/ℤ◌,
  ◌≤ℤ◌, int_laws, nat_eq, lookup, ◌⊎◌, inl, inr, Bool-cases,
}
use mefs_go_settlement.Base.Product.{+ℤ-mul, -ℤ-mul, mul-+ℤ, mul-same, mul-zero, div-mul}
use mefs_go_settlement.Keys.{MultiKey, key, multi_key_eq}
use mefs_go_settlement.Pledge.{RewardInfo, no_reward}
use mefs_go_settlement.Pledge.Calls.{accum_at, or_fresh}

-- The record of a role in a token, which is zero where there is none.
abbrev pub entry : Dict MultiKey RewardInfo → (i j : ℕ) → RewardInfo
entry d i j = or_fresh no_reward (lookup (key i j) d)

-- What a role has in the pool.
abbrev pub stake : Dict MultiKey RewardInfo → ℕ → ℤ
stake d i = (entry d i 0).last_reward

-- What is due to a role that has `s` in the pool, when each unit has earned `accum` so far.
abbrev pub due : (accum s : ℤ) → RewardInfo → ℤ
due accum s e = e.last_reward +ℤ (accum -ℤ e.reward_accum) *ℤ s

-- The sum over roles.
abbrev pub total : (ℕ → ℤ) → List ℕ → ℤ
total f [] = pos 0
total f (i ∷ is) = f i +ℤ total f is

pub total_mono : (f g : ℕ → ℤ) (is : List ℕ) → ((i : ℕ) → f i ≤ℤ g i) → total f is ≤ℤ total g is
total_mono f g [] h = omega arith
total_mono f g (i ∷ is) h = omega (int_laws, h i, total_mono f g is h)

pub total_same : (f g : ℕ → ℤ) (is : List ℕ) → ((i : ℕ) → f i ≡ g i) → total f is ≡ total g is
total_same f g [] h = refl
total_same f g (i ∷ is) h = rw (h i, total_same f g is h) refl

pub total_nonneg : (f : ℕ → ℤ) (is : List ℕ) → ((i : ℕ) → pos 0 ≤ℤ f i) → pos 0 ≤ℤ total f is
total_nonneg f [] h = omega arith
total_nonneg f (i ∷ is) h = grind (int_laws, h i, total_nonneg f is h)

-- A role is not among others, and is among them once.
abbrev pub Absent : ℕ → List ℕ → Type 0
Absent i [] = Unit
Absent i (k ∷ ks) = (k ≢ i) × Absent i ks

abbrev pub Once : ℕ → List ℕ → Type 0
Once i [] = ⊥
Once i (k ∷ ks) = ((k ≡ i) × Absent i ks) ⊎ ((k ≢ i) × Once i ks)

total-Absent :
    (f g : ℕ → ℤ) (i : ℕ) (ks : List ℕ)
    → ((k : ℕ) → k ≢ i → f k ≡ g k)
    → Absent i ks
    → total f ks ≡ total g ks
total-Absent f g i [] h a = refl
total-Absent f g i (k ∷ ks) h a = rw (h k a.0, total-Absent f g i ks h a.1) refl

-- A change at one role.
pub total-change :
    (f g : ℕ → ℤ) (i : ℕ) (ks : List ℕ)
    → ((k : ℕ) → k ≢ i → f k ≡ g k)
    → Once i ks
    → total f ks ≡ total g ks +ℤ (f i -ℤ g i)
total-change f g i [] h o = absurd o
total-change f g i (k ∷ ks) h (inl (e, a)) = rw e (grind (int_laws, total-Absent f g i ks h a))
total-change f g i (k ∷ ks) h (inr (n, o)) = grind (int_laws, h k n, total-change f g i ks h o)

-- The reward of one settlement: what each unit earns, and that all units earn no more than came in.
pub accum_lem :
    (bal t : ℤ) (ti : RewardInfo)
    → ti.last_reward ≤ℤ bal
    → let accum = accum_at bal t ti in
      (ti.reward_accum ≤ℤ accum) × ((accum -ℤ ti.reward_accum) *ℤ t ≤ℤ bal -ℤ ti.last_reward)
unfolding accum_at
accum_lem bal t ti h =
    elim (Bool-cases (ltb_ℤ (pos 0) (bal -ℤ ti.last_reward) && ltb_ℤ (pos 0) t)) [
      | inl e ↦ rw e (
          grind (
            int_laws,
            +ℤ-mul ti.reward_accum ((bal -ℤ ti.last_reward) /ℤ t) t,
            -ℤ-mul (ti.reward_accum +ℤ (bal -ℤ ti.last_reward) /ℤ t) ti.reward_accum t,
            div-mul (bal -ℤ ti.last_reward) t,
          ))
      | inr e ↦ rw e (grind (int_laws, mul-same ti.reward_accum t))
    ]

-- What is due at a later rate.
due_later :
    (accum later s : ℤ) (e : RewardInfo) → due later s e ≡ due accum s e +ℤ (later -ℤ accum) *ℤ s
due_later accum later s e =
    grind
      (int_laws, -ℤ-mul later e.reward_accum s, -ℤ-mul accum e.reward_accum s, -ℤ-mul later accum s)

pub total_later :
    (accum later : ℤ) (s : ℕ → ℤ) (e : ℕ → RewardInfo) (is : List ℕ)
    → total (λ i. due later (s i) (e i)) is
      ≡ total (λ i. due accum (s i) (e i)) is +ℤ (later -ℤ accum) *ℤ total s is
total_later accum later s e [] = grind (int_laws, mul-zero (later -ℤ accum))
total_later accum later s e (i ∷ is) = grind (
  int_laws,
  due_later accum later (s i) (e i),
  total_later accum later s e is,
  mul-+ℤ (later -ℤ accum) (s i) (total s is),
)

-- A role has no more than all of them.
pub total_part :
    (f : ℕ → ℤ) (i : ℕ) (ks : List ℕ) → ((k : ℕ) → pos 0 ≤ℤ f k) → Once i ks → f i ≤ℤ total f ks
total_part f i [] h o = absurd o
total_part f i (k ∷ ks) h (inl (e, a)) = rw (sym e) (grind (int_laws, total_nonneg f ks h))
total_part f i (k ∷ ks) h (inr (n, o)) = grind (int_laws, h k, total_part f i ks h o)
