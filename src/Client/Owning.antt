-- ===== src/Client/Owning.antt =====
-- A client's token, while the node serves the transactions of others (server/contract/erc20.go,
-- server/impl/node/erc.go).
use mefs_go_settlement.Base.{
  ℕ, ◌==◌, ◌≡◌, ◌≢◌, refl, subst, arith, List, [], ◌∷◌, none, some, Option-cases, Bool-cases, inl,
  inr, or_zero, nat_eq, insert, lookup, lookup-insert, M, pure, modify, methods, resume, ◌>>=◌,
  ◌>>◌, ℤ, ◌+ℤ◌,
}
use mefs_go_settlement.Base.Keeps.{Keeps, Keeps-modify, Keeps-then, keeps_rules}
use mefs_go_settlement.Utils.Key.{Address, Crypto, get_contract_address}
use mefs_go_settlement.Erc
use mefs_go_settlement.Erc.{ErcToken, TwoKey, two_key_eq, balance_of, initial_supply, new_token}
use mefs_go_settlement.World.{erc_token, find_erc, on_erc}
use mefs_go_settlement.Node.{
  Server, Transaction, to_role, to_erc, make_role, make_erc, ErcCall, approve, transfer,
  transfer_from, mint_token, burn, air_drop, call_erc, serve, serve_all, transact_erc,
  create_erc_token, new_erc_token, authorise, get_and_inc_nonce, count_call, on_world, token_method,
}

-- The token is `u`'s, who has the initial supply and has allowed nobody to spend of it; nobody else
-- has an account.
pub record Owns (u : Address) (e : ErcToken) : Type 0 where
  pub admin : e.admin ≡ u
  pub supply : balance_of u e ≡ initial_supply
  pub others : (x : Address) → x ≢ u → lookup x e.money ≡ none
  pub closed : (x : Address) → lookup (record { owner = u; spender = x }) e.allowed ≡ none

module _ (u caller : Address) (other : caller ≢ u) where
  approve-Owns :
      (spender : Address) (value : ℤ) (e : ErcToken)
      → Owns u e
      → Owns u (Erc.approve caller spender value e)
  unfolding Erc.approve balance_of
  approve-Owns spender value e h = record {
    admin = ground (arith, h.admin);
    supply = ground (arith, h.supply);
    others = λ x apart. ground (arith, h.others x apart);
    closed = λ x.
        let mine : TwoKey = record { owner = caller; spender = spender } in
        let theirs : TwoKey = record { owner = u; spender = x } in
        let read = lookup-insert mine theirs (or_zero (lookup mine e.allowed) +ℤ value) e.allowed in
        ground (arith, other, h.closed x, read);
  }

  call_erc-Owns : (call : ErcCall) → Keeps (Owns u) (call_erc caller call)
  unfolding call_erc Erc.transfer Erc.transfer_from Erc.mint_token Erc.burn Erc.air_drop methods
      resume
  call_erc-Owns (approve spender value) = Keeps-modify _ (λ e h. approve-Owns spender value e h)
  call_erc-Owns (transfer to value) = record {
    at = λ e h. ground (arith, h, h.others caller other);
  }
  call_erc-Owns (transfer_from from to value) = record {
    at = λ e h. elim (Bool-cases (from == u)) [
      | inl same ↦
          let is : from ≡ u = ground (arith, same) in ground (arith, is, h, h.closed caller)
      | inr apart ↦ ground (arith, h, h.others from (ground (arith, apart)))
    ];
  }
  call_erc-Owns (mint_token target amount) = record {
    at = λ e h. ground (arith, h, h.admin, other);
  }
  call_erc-Owns (burn amount) = record { at = λ e h. ground (arith, h, h.admin, other) }
  call_erc-Owns (air_drop addrs money) = record { at = λ e h. ground (arith, h, h.admin, other) }

-- The node has a token at `local` that is `u`'s.
pub record HasToken (u local : Address) (s : Server) : Type 0 where
  pub token : ErcToken
  pub known : lookup local s.node.erc_map ≡ some local
  pub found : find_erc local s.world ≡ some token
  pub holds : Owns u token

-- What others may send: the calls of any token, and the creation of tokens at other addresses.
abbrev pub Apart : (c : Crypto) (u local : Address) → Transaction → Type 0
Apart c u local (to_role uid sig caller call) = ⊥
Apart c u local (to_erc uid sig taddr caller call) = caller ≢ u
Apart c u local (make_role uid sig caller founder token) = ⊥
Apart c u local (make_erc uid sig caller) = get_contract_address c caller token_method ≢ local

abbrev pub AllApart : (c : Crypto) (u local : Address) → List Transaction → Type 0
AllApart c u local [] = Unit
AllApart c u local (tx ∷ txs) = Apart c u local tx × AllApart c u local txs

module _ (c : Crypto) (u local : Address) where
  abbrev Has : Server → Type 0
  Has = HasToken u local

  count_call-Has : Keeps Has count_call
  unfolding count_call
  count_call-Has =
      Keeps-modify _
        (λ s h. record { token = h.token; known = h.known; found = h.found; holds = h.holds })

  nonce-Has : (a : Address) → Keeps Has (get_and_inc_nonce a)
  unfolding get_and_inc_nonce methods resume
  nonce-Has a = record {
    at = λ s h. record { token = h.token; known = h.known; found = h.found; holds = h.holds };
  }

  authorise-Has : (uid : ℕ) (sig : List ℕ) (a : Address) → Keeps Has (authorise c uid sig a)
  unfolding authorise
  authorise-Has uid sig a = search (keeps_rules, nonce-Has) depth 20

  on_erc-Has :
      (er : Address) (m : M ErcToken (Unit {0}))
      → Keeps (Owns u) m
      → Keeps Has (on_world (on_erc er m))
  unfolding on_world on_erc find_erc
  on_erc-Has er m k = record {
    at = λ s h. elim (Option-cases (find_erc er s.world)) [
      | inl e ↦
          rw (e, on_erc)
            (record { token = h.token; known = h.known; found = h.found; holds = h.holds })
      | inr (t, e) ↦ elim (Bool-cases (er == local)) [
        | inl same ↦
            let is : er ≡ local = ground (arith, same) in
            let one : h.token ≡ t = cc (h.found, e, is) in
            rw (e, on_erc)
              (record {
                token = (m t).1;
                known = h.known;
                found =
                    ground (arith, is, lookup-insert er local (erc_token (m t).1) s.world.objects);
                holds = k.at t (subst (Owns u) one h.holds);
              })
        | inr apart ↦
            rw (e, on_erc)
              (record {
                token = h.token;
                known = h.known;
                found = ground (
                  arith,
                  apart,
                  h.found,
                  lookup-insert er local (erc_token (m t).1) s.world.objects,
                );
                holds = h.holds;
              })
      ]
    ];
  }

  -- The creation of a token at another address.
  creation-Has :
      (a : Address)
      → get_contract_address c a token_method ≢ local
      → Keeps Has (
          on_world (new_erc_token c a) >>= (λ et.
            modify
              (λ s. record s { node = record s.node { erc_map = insert et et s.node.erc_map } })
            >> pure et))
  unfolding on_world new_erc_token find_erc methods resume
  creation-Has a apart = record {
    at = λ s h.
        let et = get_contract_address c a token_method in
        record {
          token = h.token;
          known = ground (arith, apart, h.known, lookup-insert et local et s.node.erc_map);
          found = ground (
            arith,
            apart,
            h.found,
            lookup-insert et local (erc_token (new_token et a)) s.world.objects,
          );
          holds = h.holds;
        };
  }

  serve-Has : (tx : Transaction) (s : Server) → Apart c u local tx → Has s → Has (serve c tx s)
  unfolding serve transact_erc create_erc_token
  serve-Has (to_role uid sig caller call) s apart h = absurd apart
  serve-Has (to_erc uid sig taddr caller call) s apart h =
      (to_token (λ er. on_erc-Has er (call_erc caller call) (call_erc-Owns u caller apart call))).at
        s h
    where
      to_token :
          ((er : Address) → Keeps Has (on_world (on_erc er (call_erc caller call))))
          → Keeps Has (transact_erc c uid sig taddr caller call)
      to_token kept = search (keeps_rules, count_call-Has, authorise-Has, kept) depth 30
  serve-Has (make_role uid sig caller founder token) s apart h = absurd apart
  serve-Has (make_erc uid sig caller) s apart h =
      (Keeps-then _ _ count_call-Has
          (Keeps-then _ _ (authorise-Has uid sig caller) (creation-Has caller apart))).at
        s h

  pub serve_all-Has :
      (txs : List Transaction) (s : Server)
      → AllApart c u local txs
      → Has s
      → Has (serve_all c txs s)
  unfolding serve_all
  serve_all-Has [] s apart h = h
  serve_all-Has (tx ∷ txs) s apart h =
      serve_all-Has txs (serve c tx s) apart.1 (serve-Has tx s apart.0 h)

-- A new token.
pub new_token-HasToken :
    (u local : Address) (s : Server)
    → lookup local s.node.erc_map ≡ some local
    → find_erc local s.world ≡ some (new_token local u)
    → HasToken u local s
unfolding new_token balance_of lookup
new_token-HasToken u local s known found = record {
  token = new_token local u;
  known = known;
  found = found;
  holds = record {
    admin = refl;
    supply = ground arith;
    others = λ x apart. ground (arith, apart);
    closed = λ x. refl;
  };
}
