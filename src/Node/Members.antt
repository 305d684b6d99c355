-- ===== src/Node/Members.antt =====
-- The members of every registry through whole histories of transactions (server/impl/node/node.go,
-- erc.go, and server/contract/role.go).
use mefs_go_settlement.Base.{
  ℕ, zero, suc, ◌≡◌, refl, arith, true, subst, sym, List, [], ◌∷◌, some, ℤ, nat_eq, lookup, M,
  modify, get_elem?,
}
use mefs_go_settlement.Base.Keeps.{Keeps, Keeps-modify, keeps_rules}
use mefs_go_settlement.Utils.Key.{Address, Crypto}
use mefs_go_settlement.Erc.{ErcToken}
use mefs_go_settlement.Pledge.{PledgeMgr}
use mefs_go_settlement.Pledge.Calls.{new_pledge_mgr}
use mefs_go_settlement.Role.{RoleMgr}
use mefs_go_settlement.Role.Groups.{new_account, new_role, new_role_mgr}
use mefs_go_settlement.Role.Registry.{
  IsRegistry, Agrees, index_in, register-Keeps, add_provider_to_group-Keeps,
}
use mefs_go_settlement.Role.Members.{AllInOrder, stored, Keeps-on_erc, Keeps-on_role}
use mefs_go_settlement.Role.Members.Calls
use mefs_go_settlement.Role.Members.Orders
use mefs_go_settlement.World.{World, on_erc, erc_token, pledge_mgr, role_mgr, store, find_role}
use mefs_go_settlement.Node.{
  Server, new_node, get_and_inc_nonce, count_call, authorise, on_world, on_manager, RoleCall,
  register, register_token, register_keeper, register_provider, register_user, pledge, withdraw,
  create_group, add_keeper_to_group, add_provider_to_group, recharge, pro_withdraw,
  withdraw_from_fs, add_order, sub_order, call_role, transact_role, create_role_mgr, new_erc_token,
  create_erc_token, ErcCall, call_erc, transact_erc, Transaction, to_role, to_erc, make_role,
  make_erc, serve, serve_all,
}

-- ## What the node calls

call_role-Keeps :
    (c : Crypto) (self caller : Address) (call : RoleCall)
    → Keeps AllInOrder (call_role c self caller call)
unfolding call_role
call_role-Keeps c self caller (register addr) = Keeps-on_role self _ (register-Keeps caller addr)
call_role-Keeps c self caller (register_token taddr) = Calls.register_token-Keeps self caller taddr
call_role-Keeps c self caller (register_keeper index bls_key) =
    Calls.register_keeper-Keeps self caller index bls_key
call_role-Keeps c self caller (register_provider index) =
    Calls.register_provider-Keeps self caller index
call_role-Keeps c self caller (register_user index g_index bls_key) =
    Calls.register_user-Keeps self caller index g_index bls_key
call_role-Keeps c self caller (pledge index money) = Calls.pledge-Keeps self caller index money
call_role-Keeps c self caller (withdraw index token money) =
    Calls.withdraw-Keeps self caller index token money
call_role-Keeps c self caller (create_group level) = Calls.create_group-Keeps c self caller level
call_role-Keeps c self caller (add_keeper_to_group index g_index) =
    Calls.add_keeper_to_group-Keeps self caller index g_index
call_role-Keeps c self caller (add_provider_to_group index g_index) =
    Keeps-on_role self _ (add_provider_to_group-Keeps caller index g_index)
call_role-Keeps c self caller (recharge user token money) =
    Calls.recharge-Keeps self caller user token money
call_role-Keeps c self caller (pro_withdraw pro token pay lost) =
    Orders.pro_withdraw-Keeps self caller pro token pay lost
call_role-Keeps c self caller (withdraw_from_fs index token amount) =
    Calls.withdraw_from_fs-Keeps self caller index token amount
call_role-Keeps c self caller (add_order user pro start end size nonce token sprice) =
    Orders.add_order-Keeps self caller user pro start end size nonce token sprice
call_role-Keeps c self caller (sub_order user pro start end size nonce token sprice) =
    Orders.sub_order-Keeps self caller user pro start end size nonce token sprice

store_erc-Keeps : (a : Address) (e : ErcToken) → Keeps AllInOrder (modify (store a (erc_token e)))
store_erc-Keeps a e =
    Keeps-modify _ (λ w h. stored a (erc_token e) w (λ r at. ground (arith, at)) h)

new_erc_token-Keeps : (c : Crypto) (caller : Address) → Keeps AllInOrder (new_erc_token c caller)
unfolding new_erc_token
new_erc_token-Keeps c caller = search (keeps_rules, store_erc-Keeps) depth 20

store_pool-Keeps :
    (a : Address) (p : PledgeMgr) → Keeps AllInOrder (modify (store a (pledge_mgr p)))
store_pool-Keeps a p =
    Keeps-modify _ (λ w h. stored a (pledge_mgr p) w (λ r at. ground (arith, at)) h)

new_pledge_mgr-Keeps :
    (c : Crypto) (caller ptoken : Address) → Keeps AllInOrder (new_pledge_mgr c caller ptoken)
unfolding new_pledge_mgr
new_pledge_mgr-Keeps c caller ptoken = search (keeps_rules, store_pool-Keeps) depth 20

-- A registry starts with the foundation as its only member.
one-Agrees : (a : Address) → Agrees (a ∷ []) ((a, new_account 0) ∷ [])
unfolding lookup
one-Agrees a = record { listed = one; placed = other }
  where
    one :
        (i : ℕ) (b : Address)
        → get_elem? (a ∷ []) i ≡ some b
        → index_in b ((a, new_account 0) ∷ []) ≡ some i
    one zero b at = ground (arith, at)
    one (suc i) b at = ground (arith, at)

    other :
        (b : Address) (i : ℕ)
        → index_in b ((a, new_account 0) ∷ []) ≡ some i
        → get_elem? (a ∷ []) i ≡ some b
    other b zero at = ground (arith, at)
    other b (suc i) at = ground (arith, at)

new_role-Agrees :
    (local caller foundation token pool : Address) (k p : ℤ) (now : ℕ)
    → IsRegistry (new_role local caller foundation token pool k p now)
unfolding new_role
new_role-Agrees local caller foundation token pool k p now = one-Agrees foundation

stored_role : (r q : RoleMgr) → IsRegistry r → some r ≡ some q → IsRegistry q
stored_role r q h at = let e : r ≡ q = cc at in subst IsRegistry e h

store_role-Keeps :
    (a local caller foundation token pool : Address) (k p : ℤ) (now : ℕ)
    → Keeps AllInOrder
        (modify (store a (role_mgr (new_role local caller foundation token pool k p now))))
store_role-Keeps a local caller foundation token pool k p now = Keeps-modify _ (λ w h.
    stored a _ w
      (λ q at. stored_role _ q (new_role-Agrees local caller foundation token pool k p now) at) h)

new_role_mgr-Keeps :
    (c : Crypto) (caller foundation token : Address) (k p : ℤ)
    → Keeps AllInOrder (new_role_mgr c caller foundation token k p)
unfolding new_role_mgr
new_role_mgr-Keeps c caller foundation token k p =
    search (keeps_rules, new_pledge_mgr-Keeps, store_role-Keeps) depth 20

-- ## Transactions

abbrev pub InOrder : Server → Type 0
InOrder s = AllInOrder s.world

Keeps-on_world : {A : Type 0} (m : M World A) → Keeps AllInOrder m → Keeps InOrder (on_world m)
unfolding on_world
Keeps-on_world m k = record { at = λ s h. k.at s.world h }

Keeps-on_manager :
    {A : Type 0} (m : Address → M World A)
    → ((a : Address) → Keeps AllInOrder (m a))
    → Keeps InOrder (on_manager m)
unfolding on_manager
Keeps-on_manager m k = search (keeps_rules, Keeps-on_world, k) depth 20

-- A change of the node alone.
Keeps-node :
    (f : Server → Server) → ((s : Server) → (f s).world ≡ s.world) → Keeps InOrder (modify f)
Keeps-node f same = Keeps-modify f (λ s h. subst AllInOrder (sym (same s)) h)

count_call-Keeps : Keeps InOrder count_call
unfolding count_call
count_call-Keeps = Keeps-node _ (λ s. refl)

authorise-Keeps :
    (c : Crypto) (uid : ℕ) (sig : List ℕ) (caller : Address)
    → Keeps InOrder (authorise c uid sig caller)
unfolding authorise get_and_inc_nonce
authorise-Keeps c uid sig caller = search (keeps_rules, Keeps-node) depth 30

call_erc-Keeps :
    (er caller : Address) (call : ErcCall) → Keeps AllInOrder (on_erc er (call_erc caller call))
call_erc-Keeps er caller call = Keeps-on_erc er _

ruleset node_rules = (
  keeps_rules, count_call-Keeps, authorise-Keeps, Keeps-node, refl, Keeps-on_world,
  Keeps-on_manager,
)

serve-InOrder : (c : Crypto) (tx : Transaction) (s : Server) → InOrder s → InOrder (serve c tx s)
unfolding serve transact_role transact_erc create_role_mgr create_erc_token
serve-InOrder c (to_role uid sig caller call) s h =
    let t : Keeps InOrder (transact_role c uid sig caller call) =
      search (node_rules, call_role-Keeps) depth 30 in
    t.at s h
serve-InOrder c (to_erc uid sig taddr caller call) s h =
    let t : Keeps InOrder (transact_erc c uid sig taddr caller call) =
      search (node_rules, call_erc-Keeps) depth 30 in
    t.at s h
serve-InOrder c (make_role uid sig caller founder token) s h =
    let t : Keeps InOrder (create_role_mgr c uid sig caller founder token) =
      search (node_rules, new_role_mgr-Keeps) depth 30 in
    t.at s h
serve-InOrder c (make_erc uid sig caller) s h =
    let t : Keeps InOrder (create_erc_token c uid sig caller) =
      search (node_rules, new_erc_token-Keeps) depth 30 in
    t.at s h

serve_all-InOrder :
    (c : Crypto) (txs : List Transaction) (s : Server) → InOrder s → InOrder (serve_all c txs s)
unfolding serve_all
serve_all-InOrder c [] s h = h
serve_all-InOrder c (tx ∷ txs) s h = serve_all-InOrder c txs (serve c tx s) (serve-InOrder c tx s h)

-- A server that has no contracts yet.
abbrev pub new_server : (clock : ℕ) → Server
new_server clock = record {
  node = new_node;
  world = record { objects = []; gtime = 0; real_time = true; clock = clock };
}

new_server-InOrder : (clock : ℕ) → InOrder (new_server clock)
unfolding find_role lookup
new_server-InOrder clock = record { ordered = λ a r at. ground (arith, at) }

-- After any transactions of a new server, by anyone, accepted or refused, every registry in the table
-- of contracts is in order: the member at each index of its list is in its table with that index,
-- and each member of its table is in its list at its index.
pub members_agree :
    (c : Crypto) (clock : ℕ) (txs : List Transaction)
    → AllInOrder (serve_all c txs (new_server clock)).world
members_agree c clock txs = serve_all-InOrder c txs (new_server clock) (new_server-InOrder clock)
