-- ===== src/Fs/Liability.antt =====
-- What a group's storage contract owes in one token, and what each operation does to it
-- (server/contract/fs.go).
use mefs_go_settlement.Base.{
  ℕ, ◌==◌, ◌≡◌, ◌≢◌, if◌then◌else◌, [], ◌∷◌, Option, none, some, ℤ, pos, ◌+ℤ◌, ◌-ℤ◌, int_laws, Dict,
  nat_eq, lookup, insert, or_zero,
}
use mefs_go_settlement.Keys.{MultiKey, key, multi_key_eq, multi_key_beq_iff}
use mefs_go_settlement.Settlement.{Settlement}
use mefs_go_settlement.Fs.{FsMgr}

-- What is still to be paid out of an account: to the provider, to the keepers, and for repairs.
abbrev pub obligation : Settlement → ℤ
obligation se =
    se.max_pay +ℤ se.manage_pay -ℤ se.has_paid -ℤ se.linear_paid -ℤ se.end_paid -ℤ se.lost_paid

-- The balances, and the accounts, in one token.
unfoldable pub balances_in : (token : ℕ) → Dict MultiKey ℤ → ℤ
balances_in token [] = pos 0
balances_in token ((k, v) ∷ d) =
    (if k.token_index == token then v else pos 0) +ℤ balances_in token d

unfoldable pub accounts_in : (token : ℕ) → Dict MultiKey Settlement → ℤ
accounts_in token [] = pos 0
accounts_in token ((k, se) ∷ d) =
    (if k.token_index == token then obligation se else pos 0) +ℤ accounts_in token d

abbrev pub obligation_or_zero : Option Settlement → ℤ
obligation_or_zero none = pos 0
obligation_or_zero (some se) = obligation se

pub balances_in-insert :
    (token : ℕ) (k : MultiKey) (v : ℤ) (d : Dict MultiKey ℤ)
    → balances_in token (insert k v d)
      ≡ balances_in token d +ℤ (if k.token_index == token then v -ℤ or_zero (lookup k d) else pos 0)
unfolding balances_in insert lookup
balances_in-insert token k v [] = grind int_laws
balances_in-insert token k v ((j, w) ∷ d) =
    grind (int_laws, balances_in-insert token k v d, multi_key_beq_iff j k)

pub accounts_in-insert :
    (token : ℕ) (k : MultiKey) (se : Settlement) (d : Dict MultiKey Settlement)
    → accounts_in token (insert k se d)
      ≡ accounts_in token d
        +ℤ (if k.token_index == token
            then obligation se -ℤ obligation_or_zero (lookup k d)
            else pos 0)
unfolding accounts_in insert lookup
accounts_in-insert token k se [] = grind int_laws
accounts_in-insert token k se ((j, w) ∷ d) =
    grind (int_laws, accounts_in-insert token k se d, multi_key_beq_iff j k)

-- What the contract owes in one token: the balances, the keepers' profit, and the accounts.
unfoldable pub liability : (token : ℕ) → FsMgr → ℤ
liability token f =
    balances_in token f.balance +ℤ or_zero (lookup token f.t_acc) +ℤ accounts_in token f.pro_info

-- If the provider has an account in the token, the keepers' profit has one.
abbrev pub Served : (pro token : ℕ) → FsMgr → Type 0
Served pro token f = lookup (key pro token) f.pro_info ≢ none → lookup token f.t_acc ≢ none
