-- ===== src/Fs/Payable.antt =====
-- Nothing that a group's storage contract owes is negative, and the keepers' calls are within the total
-- (server/contract/fs.go, lines 641 to 722).
use native.Mathlib.Nat.{mul-le-mul_left, div-mul-le_self}
use mefs_go_settlement.Base.{
  ℕ, ◌*◌, ◌/◌, ◌≤◌, ◌==◌, ◌≡◌, refl, arith, if◌then◌else◌, List, [], ◌∷◌, some, Option-cases, inl,
  inr, Bool-cases, ℤ, pos, negsuc, ◌-ℤ◌, ◌*ℤ◌, ◌/ℤ◌, ◌≤ℤ◌, int_laws, *ℤ_parts, Dict, nat_eq, lookup,
  insert, lookup-insert, or_zero, modify, methods,
}
use mefs_go_settlement.Base.Keeps.{Keeps, Keeps-modify, Keeps-pure, Keeps-then, keeps_rules}
use mefs_go_settlement.Keys.{MultiKey, key, multi_key_eq, multi_key_beq}
use mefs_go_settlement.Fs.{FsMgr}
use mefs_go_settlement.Fs.Orders.{credit, set_balance}
use mefs_go_settlement.Fs.Funds.{pay_keeper, pay_keepers, share_token, share_tokens, share_profit}
use mefs_go_settlement.Fs.Payouts.{calls, AllCounted}
use mefs_go_settlement.Fs.Liquid.{IsOwing, Nonneg, Owing}

-- Each keeper has a count, and the counts add up to no more than the total.
abbrev pub IsCounted : FsMgr → Type 0
IsCounted f = AllCounted f.keepers f.count × (calls f.keepers f.count ≤ f.total_count)

abbrev pub IsPayable : FsMgr → Type 0
IsPayable f = IsOwing f × IsCounted f

pub Nonneg-insert :
    (k : MultiKey) (v : ℤ) (d : Dict MultiKey ℤ) → pos 0 ≤ℤ v → Nonneg d → Nonneg (insert k v d)
unfolding insert
Nonneg-insert k v [] more h = (more, tt)
Nonneg-insert k v ((j, u) ∷ d) more h = elim (Bool-cases (multi_key_beq j k)) [
  | inl e ↦ rw e (more, h.1)
  | inr e ↦ rw e (h.0, Nonneg-insert k v d more h.1)
]

pub Nonneg-lookup : (k : MultiKey) (d : Dict MultiKey ℤ) → Nonneg d → pos 0 ≤ℤ or_zero (lookup k d)
unfolding lookup
Nonneg-lookup k [] h = omega arith
Nonneg-lookup k ((j, u) ∷ d) h = elim (Bool-cases (multi_key_beq j k)) [
  | inl e ↦ rw e h.0
  | inr e ↦ rw e (Nonneg-lookup k d h.1)
]

-- While the keepers `ks` are still to be paid `per` for each call.
record Paying (token per : ℕ) (ks : List ℕ) (f : FsMgr) : Type 0 where
  balances : Nonneg f.balance
  profit :
      (t : ℕ) → pos (if t == token then per * calls ks f.count else 0) ≤ℤ or_zero (lookup t f.t_acc)
  accounts : Owing f.pro_info

module _ (token per : ℕ) where
  pay_keeper-Paying :
      (kindex : ℕ) (ks : List ℕ) (f : FsMgr) (kc : ℕ)
      → lookup kindex f.count ≡ some kc
      → Paying token per (kindex ∷ ks) f
      → Paying token per ks (pay_keeper token (pos per) kindex f)
        × ((pay_keeper token (pos per) kindex f).count ≡ f.count)
        × ((pay_keeper token (pos per) kindex f).keepers ≡ f.keepers)
        × ((pay_keeper token (pos per) kindex f).total_count ≡ f.total_count)
  unfolding pay_keeper credit
  pay_keeper-Paying kindex ks f kc e h =
      let part = *ℤ_parts (pos per) (pos kc) in
      let low = Nonneg-lookup (key kindex token) f.balance h.balances in
      rw (e, pay_keeper)
        (
          record {
            balances = Nonneg-insert _ _ f.balance (grind (int_laws, part, low)) h.balances;
            profit = λ t.
                let left = h.profit t in
                grind (
                  int_laws,
                  part,
                  left,
                  e,
                  lookup-insert token t (or_zero (lookup token f.t_acc) -ℤ pos per *ℤ pos kc)
                      f.t_acc,
                );
            accounts = h.accounts;
          },
          refl,
          refl,
          refl,
        )

  pay_keepers-Paying :
      (ks : List ℕ) (f : FsMgr)
      → AllCounted ks f.count
      → IsCounted f
      → Paying token per ks f
      → IsPayable (pay_keepers token (pos per) ks f)
  unfolding pay_keepers
  pay_keepers-Paying [] f all counted h = (
    record {
      balances = h.balances;
      profit = λ t. ground (arith, h.profit t);
      accounts = h.accounts;
    },
    counted,
  )
  pay_keepers-Paying (kindex ∷ ks) f all counted h = elim (Option-cases (lookup kindex f.count)) [
    | inl e ↦ absurd (all.0 e)
    | inr (kc, e) ↦
        let (next, same, keepers, total) = pay_keeper-Paying kindex ks f kc e h in
        pay_keepers-Paying ks (pay_keeper token (pos per) kindex f) (rw same all.1)
          (rw (same, keepers, total) counted) next
  ]

-- What the calls are paid is within the profit.
whole : (a total made : ℕ) → made ≤ total → a / total * made ≤ a
whole a total made h =
    let more : a / total * made ≤ a / total * total = mul-le-mul_left (a / total) h in
    omega (arith, more, div-mul-le_self a total)

share_token-Payable : (token : ℕ) → Keeps IsPayable (share_token token)
unfolding share_token methods ◌/ℤ◌
share_token-Payable token = record {
  at = λ f (owing, counted). elim (Option-cases (lookup token f.t_acc)) [
    | inl e ↦ rw e (owing, counted)
    | inr (pos a, e) ↦ rw e (
        pay_keepers-Paying token (a / f.total_count) f.keepers f counted.0 counted (record {
          balances = owing.balances;
          profit = λ t. grind (
            int_laws,
            owing.profit t,
            e,
            whole a f.total_count (calls f.keepers f.count) counted.1,
          );
          accounts = owing.accounts;
        }))
    | inr (negsuc a, e) ↦ absurd (grind (int_laws, owing.profit token, e))
  ];
}

share_tokens-Payable : (ts : List ℕ) → Keeps IsPayable (share_tokens ts)
unfolding share_tokens
share_tokens-Payable [] = Keeps-pure tt
share_tokens-Payable (token ∷ ts) =
    Keeps-then (share_token token) (share_tokens ts) (share_token-Payable token)
      (share_tokens-Payable ts)

last_time-Payable : (now : ℕ) → Keeps IsPayable (modify (λ f. record f { last_time = now }))
last_time-Payable now = Keeps-modify _ (λ f (owing, counted). (
  record { balances = owing.balances; profit = owing.profit; accounts = owing.accounts },
  counted,
))

pub share_profit-Payable : (now : ℕ) → Keeps IsPayable (share_profit now)
unfolding share_profit
share_profit-Payable now = search (keeps_rules, share_tokens-Payable, last_time-Payable) depth 20

pub set_balance-Payable :
    (k : MultiKey) (v : ℤ) → pos 0 ≤ℤ v → Keeps IsPayable (modify (set_balance k v))
set_balance-Payable k v more = Keeps-modify _ (λ f (owing, counted). (
  record {
    balances = Nonneg-insert k v f.balance more owing.balances;
    profit = owing.profit;
    accounts = owing.accounts;
  },
  counted,
))
