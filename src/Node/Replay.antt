-- ===== src/Node/Replay.antt =====
-- The nonces of server/impl/node/node.go, lines 33 to 51: no transaction acts twice.
use mefs_go_settlement.Base.{
  ℕ, suc, ◌+◌, ◌==◌, ◌≡◌, ◌≢◌, ◌<◌, refl, ap, arith, word, add64, if◌then◌else◌, List, [], ◌∷◌,
  length, nat_eq, lookup, lookup-insert, M, Result, ok, err, panic, methods, resume, Option-cases,
  modify, pure, ◌>>=◌, ◌>>◌, inl, inr, ◌⊎◌,
}
use mefs_go_settlement.Utils.Key.{Address, Crypto}
use mefs_go_settlement.World.{World}
use mefs_go_settlement.Node.{
  Server, get_nonce, nonce_or_zero, get_and_inc_nonce, count_call, authorise, on_world, on_manager,
  transact_role, transact_erc, create_role_mgr, create_erc_token, Transaction, to_role, to_erc,
  make_role, make_erc, uid_of, caller_of, serve, serve_all,
}

-- A step after which the nonce of `who` is what it was, or is one more.
abbrev Advances : (who : Address) (before after : Server) → Type 0
Advances who s s' =
    (get_nonce who s'.node ≡ get_nonce who s.node)
    ⊎ (get_nonce who s'.node ≡ add64 (get_nonce who s.node) 1)

module _ (c : Crypto) (uid : ℕ) (sig : List ℕ) (caller : Address) (s : Server) where
  pub authorise_nonce :
      (who : Address)
      → get_nonce who (authorise c uid sig caller s).1.node
        ≡ (if caller == who then add64 (get_nonce who s.node) 1 else get_nonce who s.node)
  unfolding authorise get_and_inc_nonce get_nonce methods
  authorise_nonce who = ground (
    arith,
    lookup-insert caller who (add64 (nonce_or_zero (lookup caller s.node.nonce_map)) 1)
        s.node.nonce_map,
  )

  authorise_world : (authorise c uid sig caller s).1.world ≡ s.world
  unfolding authorise get_and_inc_nonce methods
  authorise_world = ground arith

  authorise_ok : (authorise c uid sig caller s).0 ≡ ok tt → get_nonce caller s.node ≡ uid
  unfolding authorise get_and_inc_nonce methods
  authorise_ok h = ground arith

pub on_world_node : {A : Type 0} (m : M World A) (s : Server) → (on_world m s).1.node ≡ s.node
unfolding on_world
on_world_node m s = refl

pub on_manager_node :
    {A : Type 0} (m : Address → M World A) (s : Server) → (on_manager m s).1.node ≡ s.node
unfolding on_manager on_world methods
on_manager_node m s = elim (Option-cases s.node.rm) [
  | inl e ↦ rw e refl
  | inr (self, e) ↦ rw e refl
]

count_call_nonce :
    (who : Address) (s : Server) → get_nonce who (count_call s).1.node ≡ get_nonce who s.node
unfolding count_call get_nonce methods
count_call_nonce who s = refl

count_call_ok : (s : Server) → ((count_call s).0 ≡ ok tt) × ((count_call s).1.world ≡ s.world)
unfolding count_call methods
count_call_ok s = (refl, refl)

-- After a step that is authorised first, and then does something that leaves the node alone.
module _ (c : Crypto) (uid : ℕ) (sig : List ℕ) (caller : Address) (s : Server) where
  resume_nonce :
      (who : Address) {A : Type 0} (m : Unit {0} → M Server A)
      → ((q : Server) → get_nonce who (m tt q).1.node ≡ get_nonce who q.node)
      → Advances who s
          (resume (authorise c uid sig caller s).0 m (authorise c uid sig caller s).1).1
  unfolding resume
  resume_nonce who m same =
      ground (arith, authorise_nonce c uid sig caller s who, same (authorise c uid sig caller s).1)

  resume_used :
      {A : Type 0} (m : Unit {0} → M Server A)
      → ((q : Server) → get_nonce caller (m tt q).1.node ≡ get_nonce caller q.node)
      → get_nonce caller
          (resume (authorise c uid sig caller s).0 m (authorise c uid sig caller s).1).1.node
        ≡ add64 (get_nonce caller s.node) 1
  unfolding resume
  resume_used m same =
      ground
        (arith, authorise_nonce c uid sig caller s caller, same (authorise c uid sig caller s).1)

  resume_world :
      {A : Type 0} (m : Unit {0} → M Server A)
      → get_nonce caller s.node ≢ uid
      → (resume (authorise c uid sig caller s).0 m (authorise c uid sig caller s).1).1.world
        ≡ s.world
  unfolding resume
  resume_world m wrong =
      ground (arith, authorise_world c uid sig caller s, authorise_ok c uid sig caller s)

-- A call of contracts whose result the node then keeps.
module _ (who : Address) (keep : Address → Server → Server) where
  kept_nonce :
      ((a : Address) (q : Server) → get_nonce who (keep a q).node ≡ get_nonce who q.node)
      → (r : Result Address) (q : Server)
      → get_nonce who (resume r (λ a. modify (keep a) >> pure a) q).1.node ≡ get_nonce who q.node
  unfolding resume methods
  kept_nonce same (ok a) q = same a q
  kept_nonce same (err e) q = refl
  kept_nonce same panic q = refl

  pub made_nonce :
      (m : M World Address)
      → ((a : Address) (q : Server) → get_nonce who (keep a q).node ≡ get_nonce who q.node)
      → (q : Server)
      → get_nonce who ((on_world m >>= (λ a. modify (keep a) >> pure a)) q).1.node
        ≡ get_nonce who q.node
  unfolding on_world methods
  made_nonce m same q = kept_nonce same (m q.world).0 (on_world m q).1

serve-Advances :
    (c : Crypto) (who : Address) (tx : Transaction) (s : Server) → Advances who s (serve c tx s)
unfolding serve transact_role transact_erc create_role_mgr create_erc_token count_call get_nonce
    methods lookup
serve-Advances c who (to_role uid sig caller call) s =
    resume_nonce c uid sig caller (count_call s).1 who _
      (λ q. ap (get_nonce who) (on_manager_node _ q))
serve-Advances c who (to_erc uid sig taddr caller call) s =
    elim (Option-cases (lookup taddr s.node.erc_map)) [
      | inl e ↦ rw e (inl refl)
      | inr (er, e) ↦ rw e (
          resume_nonce c uid sig caller (count_call s).1 who _
            (λ q. ap (get_nonce who) (on_world_node _ q)))
    ]
serve-Advances c who (make_role uid sig caller founder token) s =
    resume_nonce c uid sig caller (count_call s).1 who _ (made_nonce who _ _ (λ a q. refl))
serve-Advances c who (make_erc uid sig caller) s =
    resume_nonce c uid sig caller (count_call s).1 who _ (made_nonce who _ _ (λ a q. refl))

-- A transaction whose uid is not the caller's nonce changes nothing in the contracts.
serve_stale :
    (c : Crypto) (tx : Transaction) (s : Server)
    → get_nonce (caller_of tx) s.node ≢ uid_of tx
    → (serve c tx s).world ≡ s.world
unfolding serve transact_role transact_erc create_role_mgr create_erc_token count_call get_nonce
    methods lookup
serve_stale c (to_role uid sig caller call) s wrong =
    resume_world c uid sig caller (count_call s).1 _ wrong
serve_stale c (to_erc uid sig taddr caller call) s wrong =
    elim (Option-cases (lookup taddr s.node.erc_map)) [
      | inl e ↦ rw e refl
      | inr (er, e) ↦ rw e (resume_world c uid sig caller (count_call s).1 _ wrong)
    ]
serve_stale c (make_role uid sig caller founder token) s wrong =
    resume_world c uid sig caller (count_call s).1 _ wrong
serve_stale c (make_erc uid sig caller) s wrong =
    resume_world c uid sig caller (count_call s).1 _ wrong

-- ## After a transaction

-- A server whose nonce of `who` is past `n`, with room for `k` more transactions.
abbrev Past : (who : Address) (n k : ℕ) (s : Server) → Type 0
Past who n k s = (n < get_nonce who s.node) × (get_nonce who s.node + k < word)

step-Past :
    (who : Address) (n k : ℕ) (s s' : Server)
    → Advances who s s'
    → Past who n (suc k) s
    → Past who n k s'
step-Past who n k s s' (inl e) h = ground arith
step-Past who n k s s' (inr e) h = ground arith

serve_all-Past :
    (c : Crypto) (who : Address) (n : ℕ) (txs : List Transaction) (s : Server)
    → Past who n (length txs) s
    → Past who n 0 (serve_all c txs s)
unfolding serve_all
serve_all-Past c who n [] s h = h
serve_all-Past c who n (tx ∷ txs) s h =
    serve_all-Past c who n txs (serve c tx s)
      (step-Past who n (length txs) s (serve c tx s) (serve-Advances c who tx s) h)

-- A transaction uses its caller's nonce, or is refused because the node does not know the token.
serve_used :
    (c : Crypto) (tx : Transaction) (s : Server)
    → ((serve c tx s).world ≡ s.world)
      ⊎ (get_nonce (caller_of tx) (serve c tx s).node ≡ add64 (get_nonce (caller_of tx) s.node) 1)
unfolding serve transact_role transact_erc create_role_mgr create_erc_token count_call get_nonce
    methods lookup
serve_used c (to_role uid sig caller call) s = inr (
    resume_used c uid sig caller (count_call s).1 _
      (λ q. ap (get_nonce caller) (on_manager_node _ q)))
serve_used c (to_erc uid sig taddr caller call) s =
    elim (Option-cases (lookup taddr s.node.erc_map)) [
      | inl e ↦ rw e (inl refl)
      | inr (er, e) ↦ rw e (
          inr (
            resume_used c uid sig caller (count_call s).1 _
              (λ q. ap (get_nonce caller) (on_world_node _ q))))
    ]
serve_used c (make_role uid sig caller founder token) s =
    inr (resume_used c uid sig caller (count_call s).1 _ (made_nonce caller _ _ (λ a q. refl)))
serve_used c (make_erc uid sig caller) s =
    inr (resume_used c uid sig caller (count_call s).1 _ (made_nonce caller _ _ (λ a q. refl)))

-- A transaction that changed the contracts left its caller's nonce past its own.
serve-Past :
    (c : Crypto) (tx : Transaction) (k : ℕ) (s : Server)
    → (serve c tx s).world ≢ s.world
    → get_nonce (caller_of tx) s.node + suc k < word
    → Past (caller_of tx) (uid_of tx) k (serve c tx s)
serve-Past c tx k s acted room = grind (arith, serve_used c tx s, serve_stale c tx s)

-- No transaction acts twice: once a transaction has changed the contracts, then after any
-- transactions, any transaction of the same caller under the same nonce leaves the contracts as they
-- are, as long as the caller's nonce has not come round to 0.
pub no_replay :
    (c : Crypto) (tx again : Transaction) (txs : List Transaction) (s : Server)
    → (serve c tx s).world ≢ s.world
    → caller_of again ≡ caller_of tx
    → uid_of again ≡ uid_of tx
    → get_nonce (caller_of tx) s.node + suc (length txs) < word
    → let s' = serve_all c txs (serve c tx s) in (serve c again s').world ≡ s'.world
no_replay c tx again txs s acted same_caller same_uid room =
    let s' = serve_all c txs (serve c tx s) in
    let past =
      serve_all-Past c (caller_of tx) (uid_of tx) txs (serve c tx s)
        (serve-Past c tx (length txs) s acted room) in
    serve_stale c again s' (rw (same_caller, same_uid) (λ e. grind (arith, past, e)))
