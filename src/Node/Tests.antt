-- ===== src/Node/Tests.antt =====
-- The node on concrete transactions, with hashes that return their input and signatures that are the
-- signer's key.
use mefs_go_settlement.Base.{
  ◌≡◌, ◌≢◌, refl, ap, arith, true, some, none, ◌*ℤ◌, pos, ◌+ℤ◌, ◌-ℤ◌, ℕ, List, [], ◌∷◌, nat_eq,
  lookup, insert, methods, resume,
}
use mefs_go_settlement.Utils.Key.{
  Crypto, verify, to_address, bytes_to_address, number, bytes, get_contract_address,
}
use mefs_go_settlement.Erc
use mefs_go_settlement.Erc.{ErcToken, balance_of}
use mefs_go_settlement.World.{
  erc_token, get_token_balance, find_erc, find_role, on_role, get_time, on_erc, get_erc_token,
}
use mefs_go_settlement.Node.{
  Server, little_endian, Transaction, to_erc, to_role, make_erc, make_role, register, new_erc_token,
  create_erc_token, create_role_mgr, transact_role, on_manager, call_role, transfer, serve,
  serve_all, get_nonce, transact_erc, authorise, get_and_inc_nonce, count_call, on_world, call_erc,
}
use mefs_go_settlement.Role.Groups
use mefs_go_settlement.Role.Groups.{role_method, new_role_mgr, new_role}
use mefs_go_settlement.Role.Registry.{index_in}
use mefs_go_settlement.Role.Members.{AllInOrder}
use mefs_go_settlement.Pledge.Calls.{new_pledge_mgr, new_pledge}
use mefs_go_settlement.Node.Queries.{info_of, ask}
use mefs_go_settlement.Node.Unchanged.{ask_unchanged}
use mefs_go_settlement.Node.Replay.{no_replay}
use mefs_go_settlement.Node.Members.{new_server, members_agree}

abbrev plain : Crypto
plain = record { sum256 = λ m. m; sum512 = λ m. m; recover_pubkey = λ m sig. some sig }

abbrev token : ErcToken
token = record {
  local = 1;
  admin = 7;
  total_supply = pos 42;
  money = (7, pos 30) ∷ (8, pos 12) ∷ [];
  allowed = [];
}

abbrev server : Server
server = record {
  node = record { count = 0; rm = none; erc_map = (1, 1) ∷ []; nonce_map = [] };
  world = record { objects = (1, erc_token token) ∷ []; gtime = 0; real_time = true; clock = 0 };
}

abbrev signature : List ℕ
signature = 0 ∷ 0 ∷ 0 ∷ 0 ∷ 0 ∷ 0 ∷ 0 ∷ 0 ∷ 0 ∷ 0 ∷ 0 ∷ 0 ∷ 7 ∷ []

-- The address 7 sends 5 to the address 8.
abbrev payment : Transaction
payment = to_erc 0 signature 1 7 (transfer 8 (pos 5))

payment-result : get_token_balance 1 8 (serve plain payment server).world ≡ pos 17
unfolding serve transact_erc authorise get_and_inc_nonce get_nonce count_call on_world call_erc
    lookup insert methods resume verify to_address bytes_to_address number get_token_balance
    find_erc on_erc get_erc_token balance_of Erc.transfer ◌+ℤ◌ ◌-ℤ◌
payment-result = refl

balance-before : get_token_balance 1 8 server.world ≡ pos 12
unfolding get_token_balance find_erc balance_of lookup
balance-before = refl

payment-acts : (serve plain payment server).world ≢ server.world
payment-acts e = ground (arith, ap (get_token_balance 1 8) e, payment-result, balance-before)

no_replay_example :
    let s' = serve_all plain (payment ∷ []) (serve plain payment server) in
    (serve plain payment s').world ≡ s'.world
no_replay_example =
    no_replay plain payment payment (payment ∷ []) server payment-acts refl refl
      (unfold get_nonce lookup in ground arith)

-- The address 7 makes a token and a registry, and registers the address 8 in it.
abbrev start_up : List Transaction
start_up =
    make_erc 0 signature 7 ∷ make_role 1 signature 7 7 1 ∷ to_role 2 signature 7 (register 8) ∷ []

members_agree_example : AllInOrder (serve_all plain start_up (new_server 5)).world
members_agree_example = members_agree plain 5 start_up

-- The registry that these make lies at the bytes 7 and "RoleMgr", and knows the address 8 as member 1.
start_up-index :
    index_in 8
      (elim (find_role
        (get_contract_address plain 7 role_method)
        (serve_all plain start_up (new_server 5)).world) [ none ↦ [] | some r ↦ r.info ])
    ≡ some 1
unfolding serve_all serve transact_role create_role_mgr create_erc_token new_erc_token authorise
    get_and_inc_nonce get_nonce count_call on_world on_manager call_role on_role Groups.register
    new_role_mgr new_role new_pledge_mgr new_pledge get_time get_token_balance find_erc find_role
    lookup insert methods resume verify get_contract_address to_address bytes_to_address number
    bytes little_endian ◌*ℤ◌
start_up-index = refl

-- The new registry's member 1 is asked for.
ask_unchanged_example :
    (ask (info_of 1) (serve_all plain start_up (new_server 5))).1
    ≡ serve_all plain start_up (new_server 5)
ask_unchanged_example = ask_unchanged (info_of 1) (serve_all plain start_up (new_server 5))
