-- ===== src/Node/Others.antt =====
-- The transactions of others, and the nonce of a caller (server/impl/node/node.go and erc.go).
use mefs_go_settlement.Base.{
  ◌≡◌, ◌≢◌, refl, ap, ◌∙◌, arith, ℕ, List, [], ◌∷◌, Option-cases, inl, inr, nat_eq, lookup, M,
  resume, methods,
}
use mefs_go_settlement.Utils.Key.{Address, Crypto}
use mefs_go_settlement.Node.{
  Server, Transaction, to_role, to_erc, make_role, make_erc, caller_of, serve, serve_all, get_nonce,
  transact_role, transact_erc, create_role_mgr, create_erc_token, authorise, count_call,
}
use mefs_go_settlement.Node.Replay.{authorise_nonce, on_world_node, on_manager_node, made_nonce}

-- After a step that is authorised first, and then does something that leaves the node alone.
resume_other :
    (c : Crypto) (uid : ℕ) (sig : List ℕ) (caller who : Address) (s : Server) {A : Type 0}
    (m : Unit {0} → M Server A)
    → caller ≢ who
    → ((q : Server) → get_nonce who (m tt q).1.node ≡ get_nonce who q.node)
    → get_nonce who
        (resume (authorise c uid sig caller s).0 m (authorise c uid sig caller s).1).1.node
      ≡ get_nonce who s.node
unfolding resume
resume_other c uid sig caller who s m other same =
    ground
      (arith, other, authorise_nonce c uid sig caller s who, same (authorise c uid sig caller s).1)

serve_other :
    (c : Crypto) (who : Address) (tx : Transaction) (s : Server)
    → caller_of tx ≢ who
    → get_nonce who (serve c tx s).node ≡ get_nonce who s.node
unfolding serve transact_role transact_erc create_role_mgr create_erc_token count_call get_nonce
    methods lookup
serve_other c who (to_role uid sig caller call) s other =
    resume_other c uid sig caller who (count_call s).1 _ other
      (λ q. ap (get_nonce who) (on_manager_node _ q))
serve_other c who (to_erc uid sig taddr caller call) s other =
    elim (Option-cases (lookup taddr s.node.erc_map)) [
      | inl e ↦ rw e refl
      | inr (er, e) ↦ rw e (
          resume_other c uid sig caller who (count_call s).1 _ other
            (λ q. ap (get_nonce who) (on_world_node _ q)))
    ]
serve_other c who (make_role uid sig caller founder token) s other =
    resume_other c uid sig caller who (count_call s).1 _ other (made_nonce who _ _ (λ a q. refl))
serve_other c who (make_erc uid sig caller) s other =
    resume_other c uid sig caller who (count_call s).1 _ other (made_nonce who _ _ (λ a q. refl))

-- None of the transactions is by `who`.
abbrev pub ByOthers : (who : Address) → List Transaction → Type 0
ByOthers who [] = Unit
ByOthers who (tx ∷ txs) = (caller_of tx ≢ who) × ByOthers who txs

pub serve_all_others :
    (c : Crypto) (who : Address) (txs : List Transaction) (s : Server)
    → ByOthers who txs
    → get_nonce who (serve_all c txs s).node ≡ get_nonce who s.node
unfolding serve_all
serve_all_others c who [] s others = refl
serve_all_others c who (tx ∷ txs) s others =
    serve_all_others c who txs (serve c tx s) others.1 ∙ serve_other c who tx s others.0
