-- ===== src/Erc/Tests.antt =====
-- The token on concrete calls.
use mefs_go_settlement.Base.{
  ◌≡◌, refl, arith, pos, ◌-ℤ◌, ◌≤ℤ◌, ◌<ℤ◌, methods, nat_eq, lookup, ok, List, [], ◌∷◌,
}
use mefs_go_settlement.Erc.{
  ErcToken, new_token, balance_of, transfer, transfer_from, two_key_eq, mint_token,
}
use mefs_go_settlement.Erc.Supply.{
  Call, after_all, transfers, approves, transfers_from, mints, burns, drops, IsBacked,
  balances_add_up,
}
use mefs_go_settlement.Erc.Ledger.{new_ledger, on_ledger_all}
use mefs_go_settlement.Erc.Shows.{Shows}
use mefs_go_settlement.Erc.Refinement.{refines_ledger}
use mefs_go_settlement.Erc.Solvency.{balances_nonneg, mint_negative}

-- 30 at the address 7, 12 at the address 8, and 7 lets 8 spend 20.
abbrev token : ErcToken
token = record {
  local = 1;
  admin = 7;
  total_supply = pos 42;
  money = (7, pos 30) ∷ (8, pos 12) ∷ [];
  allowed = (record { owner = 7; spender = 8 }, pos 20) ∷ [];
}

transfer_result : (transfer 7 8 (pos 5) token).0 ≡ ok tt
unfolding transfer lookup methods
transfer_result = refl

transfer_from_result : (transfer_from 8 7 9 (pos 5) token).0 ≡ ok tt
unfolding transfer_from lookup methods
transfer_from_result = refl

abbrev history : List Call
history =
    transfers 7 8 (pos 5)
    ∷ mints 7 9 (pos 40)
    ∷ burns 9 (pos 1)
    ∷ transfers 9 9 (pos 100)
    ∷ drops 7 (8 ∷ 10 ∷ []) (pos 6)
    ∷ []

balances_add_up_example : IsBacked (after_all history (new_token 1 7))
balances_add_up_example = balances_add_up 1 7 history

balances_nonneg_example : pos 0 ≤ℤ balance_of 9 (after_all history (new_token 1 7))
balances_nonneg_example = balances_nonneg 1 7 history (ground arith) 9

mint_negative_example :
    let e' = (mint_token 7 8 (pos 0 -ℤ pos 13) token).1 in
    ((mint_token 7 8 (pos 0 -ℤ pos 13) token).0 ≡ ok tt) × (balance_of 8 e' <ℤ pos 0)
mint_negative_example = mint_negative 8 13 token (unfold balance_of lookup in ground arith)

-- 7 makes the token, sends 5 to 8, lets 8 spend 20, and 8 draws 3 of these for 9.
abbrev calls : List Call
calls = transfers 7 8 (pos 5) ∷ approves 7 8 (pos 20) ∷ transfers_from 8 7 9 (pos 3) ∷ []

refines_ledger_example :
    Shows (on_ledger_all calls (new_ledger 7)) (after_all calls (new_token 1 7))
refines_ledger_example = refines_ledger 1 7 calls
