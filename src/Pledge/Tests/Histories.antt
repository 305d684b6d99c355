-- ===== src/Pledge/Tests/Histories.antt =====
-- A history of the pool, on a concrete world.
use mefs_go_settlement.Base.{
  ◌≡◌, ◌≢◌, refl, subst, arith, some, pos, ◌+ℤ◌, ◌-ℤ◌, ◌*ℤ◌, ◌≤ℤ◌, ℕ, [], ◌∷◌, get_elem?, nat_eq,
  ok, zero, suc, lookup, insert, methods,
}
use mefs_go_settlement.Utils.Key.{
  Address, to_address, bytes_to_address, number, bytes, get_contract_address,
}
use mefs_go_settlement.Keys.{multi_key_eq}
use mefs_go_settlement.Erc
use mefs_go_settlement.Erc.{ErcToken, balance_of, two_key_eq}
use mefs_go_settlement.Role.{get_info_addr}
use mefs_go_settlement.Role.Groups.{new_role}
use mefs_go_settlement.Pledge.Calls.{new_pledge, new_pledge_mgr, pool_method, pledge, withdraw}
use mefs_go_settlement.World.{
  World, find_erc, find_pledge, find_role, on_role, get_role_mgr, send_balance, get_token_balance,
  on_erc, on_pledge, call_token, send_balance_from,
}
use mefs_go_settlement.Pledge.Calls.{add_token}
use mefs_go_settlement.Pledge.History.{pledged, withdrawn, token_added, here, next}
use mefs_go_settlement.Pledge.History.Fine.{IsFine, Reach-IsFine}
use mefs_go_settlement.Pledge.History.Start.{new_pledge_mgr-IsFine}
use mefs_go_settlement.Pledge.Tests.{
  plain, pool, world, made, pool-lies, pledged as first, pledged-result, role_1,
}

new_pledge_mgr-IsFine_example :
    IsFine (get_contract_address plain 3 pool_method) (1 ∷ 2 ∷ []) (1 ∷ []) made
new_pledge_mgr-IsFine_example =
    new_pledge_mgr-IsFine plain 3 1 (1 ∷ 2 ∷ []) world (rw pool-lies (unfold lookup in refl))
      (rw pool-lies (unfold get_token_balance find_erc balance_of lookup in omega arith))

made-IsFine : IsFine pool (1 ∷ 2 ∷ []) (1 ∷ []) made
made-IsFine =
    subst (λ a. IsFine a (1 ∷ 2 ∷ []) (1 ∷ []) made) pool-lies
      (new_pledge_mgr-IsFine plain 3 1 (1 ∷ 2 ∷ []) world (rw pool-lies (unfold lookup in refl))
        (rw pool-lies (unfold get_token_balance find_erc balance_of lookup in omega arith)))

-- Once role 1 has pledged 10, the token at the address 2 is added, and the role withdraws 4.
abbrev added : World
added = (add_token pool 3 2 1 first).1

abbrev last : World
last = (withdraw pool 3 1 0 (pos 4) (pos 5) added).1

added-result : (add_token pool 3 2 1 first).0 ≡ ok tt
unfolding add_token pledge new_pledge_mgr new_pledge get_contract_address to_address
    bytes_to_address number bytes lookup insert methods on_pledge get_token_balance find_erc
    find_pledge balance_of send_balance_from call_token on_erc Erc.transfer_from ◌+ℤ◌ ◌-ℤ◌ ◌*ℤ◌
added-result = refl

no_balance : pos 0 ≤ℤ get_token_balance 2 pool first
unfolding pledge new_pledge_mgr new_pledge get_contract_address to_address bytes_to_address number
    bytes lookup insert methods on_pledge get_token_balance find_erc find_pledge balance_of
    send_balance_from call_token on_erc Erc.transfer_from ◌+ℤ◌ ◌-ℤ◌ ◌*ℤ◌
no_balance = omega arith

last-result : (withdraw pool 3 1 0 (pos 4) (pos 5) added).0 ≡ ok tt
unfolding add_token pledge new_pledge_mgr new_pledge get_contract_address to_address
    bytes_to_address number bytes lookup insert methods on_pledge get_token_balance find_erc
    find_pledge balance_of send_balance_from call_token on_erc Erc.transfer_from ◌+ℤ◌ ◌-ℤ◌ ◌*ℤ◌
    withdraw send_balance get_role_mgr find_role on_role get_info_addr Erc.transfer new_role
last-result = refl

absent : (j : ℕ) → get_elem? {A = Address} (1 ∷ []) j ≢ some 2
absent zero e = ground (arith, e)
absent (suc j) e = ground (arith, e)

Reach-IsFine_example : IsFine pool (1 ∷ 2 ∷ []) (1 ∷ 2 ∷ []) last
Reach-IsFine_example =
    Reach-IsFine pool (1 ∷ 2 ∷ [])
      (next
        (next
          (next here
            (pledged (1 ∷ []) made 3 8 1 (pos 10) role_1 (λ e. ground (arith, e)) pledged-result))
          (token_added (1 ∷ []) first 3 2 1 (omega arith) no_balance absent added-result))
        (withdrawn (1 ∷ 2 ∷ []) added 3 1 0 (pos 4) (pos 5) role_1 (omega arith) last-result))
      made-IsFine
