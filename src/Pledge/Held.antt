-- ===== src/Pledge/Held.antt =====
-- The tokens that the pool holds while its calls run: the steps of server/contract/pledge.go, and
-- what holds of the pool and of its balances after each.
use mathlib.Core.Path.{fun_ext}
use mefs_go_settlement.Base.{
  ◌==◌, ◌≡◌, ◌≢◌, refl, sym, ap, subst, ◌∙◌, arith, if◌then◌else◌, Option, none, some, Option-cases,
  ℤ, pos, ◌+ℤ◌, ◌-ℤ◌, ◌≤ℤ◌, int_laws, nat_eq, lookup-insert, inl, inr, Bool-cases, M, Result, ok,
  err, panic, gets,
}
use mefs_go_settlement.Base.Triple.{After, Triple, Triple-any, Triple-weaken}
use mefs_go_settlement.Utils.Key.{Address}
use mefs_go_settlement.Erc
use mefs_go_settlement.Erc.{ErcToken, balance_of}
use mefs_go_settlement.Erc.Balances.{balance_of-transfer, transfer_from_lem}
use mefs_go_settlement.Pledge.{PledgeMgr}
use mefs_go_settlement.Role.{RoleMgr}
use mefs_go_settlement.World.{
  World, Object, erc_token, pledge_mgr, role_mgr, as_erc, as_pledge, find_erc, find_pledge,
  find_role, on_pledge, on_role, on_erc, store, call_token, send_balance, send_balance_from,
  get_token_balance,
}

module _ (self : Address) where
  -- What the pool holds of each token.
  abbrev pub balances : World → Address → ℤ
  balances w a = get_token_balance a self w

  -- The pool is in the table, and `C` holds of what it holds and of its books.
  pub record At (C : (Address → ℤ) → PledgeMgr → Type 0) (w : World) : Type 0 where
    pub pool : PledgeMgr
    pub pool_at : find_pledge self w ≡ some pool
    pub holds : C (balances w) pool

  abbrev pub Anything : World → Type 0
  Anything w = Unit

  pub find_pledge-store :
      (a : Address) (o : Object) (w : World)
      → find_pledge self (store a o w)
        ≡ (if a == self then as_pledge (some o) else find_pledge self w)
  unfolding find_pledge
  find_pledge-store a o w = rw (lookup-insert a self o w.objects) (ground arith)

  find_erc-store :
      (a t : Address) (o : Object) (w : World)
      → find_erc t (store a o w) ≡ (if a == t then as_erc (some o) else find_erc t w)
  unfolding find_erc
  find_erc-store a t o w = rw (lookup-insert a t o w.objects) (ground arith)

  same_token :
      (t : Address) (w w' : World)
      → find_erc t w' ≡ find_erc t w
      → get_token_balance t self w' ≡ get_token_balance t self w
  unfolding get_token_balance
  same_token t w w' h =
      ap (λ (o : Option ErcToken). elim o [ none ↦ pos 0 | some e ↦ balance_of self e ]) h

  -- A write of something that is no token over something that is none.
  pub balances-store :
      (a : Address) (o : Object) (w : World)
      → as_erc (some o) ≡ none
      → find_erc a w ≡ none
      → balances (store a o w) ≡ balances w
  balances-store a o w new old = fun_ext (λ t.
      same_token t w (store a o w) (elim (Bool-cases (a == t)) [
        | inl e ↦
            let same : a ≡ t = ground (arith, e) in
            let none' : find_erc t w ≡ none = subst (λ x. find_erc x w ≡ none) same old in
            rw (find_erc-store a t o w, e, new, none') refl
        | inr e ↦ rw (find_erc-store a t o w, e) refl
      ]))

  pool-no_token :
      (a : Address) (w : World) (p : PledgeMgr) → find_pledge a w ≡ some p → find_erc a w ≡ none
  unfolding find_pledge find_erc
  pool-no_token a w p h = ground (arith, h)

  role-no_token :
      (a : Address) (w : World) (r : RoleMgr) → find_role a w ≡ some r → find_erc a w ≡ none
  unfolding find_role find_erc
  role-no_token a w r h = ground (arith, h)

  module _ {A : Type 0} where
    on_pledge-After :
        (Q : A → (Address → ℤ) → PledgeMgr → Type 0) (w : World) (p : PledgeMgr) (r : Result A)
        (q : PledgeMgr)
        → find_pledge self w ≡ some p
        → After (λ a q. Q a (balances w) q) (λ _. Unit) r q
        → After (λ a w'. At (Q a) w') Anything r (store self (pledge_mgr q) w)
    on_pledge-After Q w p (ok a) q at h = record {
      pool = q;
      pool_at = find_pledge-store self (pledge_mgr q) w ∙ ground arith;
      holds =
          subst (λ b. Q a b q)
            (sym (balances-store self (pledge_mgr q) w refl (pool-no_token self w p at))) h;
    }
    on_pledge-After Q w p (err e) q at h = tt
    on_pledge-After Q w p panic q at h = tt

    -- A method of the pool.
    pub on_pledge-At :
        {C : (Address → ℤ) → PledgeMgr → Type 0} (Q : A → (Address → ℤ) → PledgeMgr → Type 0)
        (m : M PledgeMgr A)
        → ((b : Address → ℤ) (p : PledgeMgr)
            → C b p
            → After (λ a q. Q a b q) (λ _. Unit) (m p).0 (m p).1)
        → Triple (At C) (on_pledge self m) (λ a w. At (Q a) w) Anything
    unfolding on_pledge
    on_pledge-At Q m step = record {
      at = λ w h.
          rw (h.pool_at, on_pledge)
            (on_pledge-After Q w h.pool (m h.pool).0 (m h.pool).1 h.pool_at
              (step (balances w) h.pool h.holds));
    }

  other_pool :
      (a : Address) (w : World) (r : RoleMgr) (p : PledgeMgr)
      → find_role a w ≡ some r
      → find_pledge self w ≡ some p
      → (if a == self then as_pledge (some (role_mgr r)) else find_pledge self w) ≡ some p
  unfolding find_role find_pledge
  other_pool a w r p hr hp = ground (arith, hr, hp)

  -- Whatever the result.
  Triple-whatever :
      {A : Type 0} {P I : World → Type 0} (m : M World A)
      → ((w : World) → P w → I (m w).1)
      → Triple P m (λ _ w. I w) Anything
  Triple-whatever m k = Triple-weaken m (λ w h. tt) (Triple-any m k)

  module _ {C : (Address → ℤ) → PledgeMgr → Type 0} where
    pub balance-At :
        (t : Address) {E : World → Type 0}
        → Triple (At C) (gets (get_token_balance t self)) (λ a w. At (λ b p. C b p × (a ≡ b t)) w) E
    unfolding gets
    balance-At t = record {
      at = λ w h. record { pool = h.pool; pool_at = h.pool_at; holds = (h.holds, refl) };
    }

    -- What only reads a registry.
    pub on_role-At :
        {A : Type 0} (owner : Address) (m : M RoleMgr A)
        → ((r : RoleMgr) → (m r).1 ≡ r)
        → Triple (At C) (on_role owner m) (λ _ w. At C w) Anything
    unfolding on_role
    on_role-At owner m same = Triple-whatever _ (λ w h. elim (Option-cases (find_role owner w)) [
      | inl e ↦ rw (e, on_role) h
      | inr (r, e) ↦
          rw (e, on_role)
            (rw (same r) (record {
              pool = h.pool;
              pool_at =
                  find_pledge-store owner (role_mgr r) w ∙ other_pool owner w r h.pool e h.pool_at;
              holds =
                  subst (λ b. C b h.pool)
                    (sym (balances-store owner (role_mgr r) w refl (role-no_token owner w r e)))
                    h.holds;
            }))
    ])

  -- ## Calls of a token

  other_token :
      (a : Address) (w : World) (e e' : ErcToken) (p : PledgeMgr)
      → find_erc a w ≡ some e
      → find_pledge self w ≡ some p
      → find_pledge self (store a (erc_token e') w) ≡ some p
  unfolding find_erc find_pledge
  other_token a w e e' p he hp =
      ground (arith, lookup-insert a self (erc_token e') w.objects, he, hp)

  balance_at :
      (t : Address) (w : World) (e : ErcToken)
      → find_erc t w ≡ some e
      → balances w t ≡ balance_of self e
  unfolding get_token_balance
  balance_at t w e h = rw (h, get_token_balance) refl

  module _ {C C' : (Address → ℤ) → PledgeMgr → Type 0} (t : Address) (m : M ErcToken (Unit {0}))
      (R : ℤ → ℤ → Type 0)
      (moves : (e : ErcToken) → (m e).0 ≡ ok tt → R (balance_of self e) (balance_of self (m e).1))
      (step : (b b' : Address → ℤ) (p : PledgeMgr)
        → C b p
        → ((a : Address) → a ≢ t → b' a ≡ b a)
        → R (b t) (b' t)
        → C' b' p) where
    moved :
        (w : World) (h : At C w) (e e' : ErcToken) (r : Result (Unit {0}))
        → find_erc t w ≡ some e
        → (r ≡ ok tt → R (balance_of self e) (balance_of self e'))
        → After (λ _ q. At C' q) Anything r (store t (erc_token e') w)
    moved w h e e' panic he k = tt
    moved w h e e' (err x) he k = tt
    moved w h e e' (ok tt) he k =
        let w' = store t (erc_token e') w in
        let now : find_erc t w' ≡ some e' = find_erc-store t t (erc_token e') w ∙ ground arith in
        record {
          pool = h.pool;
          pool_at = other_token t w e e' h.pool he h.pool_at;
          holds =
              step (balances w) (balances w') h.pool h.holds
                (λ a n. same_token a w w' (find_erc-store t a (erc_token e') w ∙ ground (arith, n)))
                (rw (balance_at t w e he, balance_at t w' e' now) (k refl));
        }

    pub call_token-At : Triple (At C) (call_token t m) (λ _ w. At C' w) Anything
    unfolding call_token on_erc
    call_token-At = record {
      at = λ w h. elim (Option-cases (find_erc t w)) [
        | inl n ↦ rw (n, call_token) tt
        | inr (e, s) ↦ rw (s, call_token) (rw (s, on_erc) (moved w h e (m e).1 (m e).0 s (moves e)))
      ];
    }

  -- Money that comes in.
  pub receive-At :
      {C C' : (Address → ℤ) → PledgeMgr → Type 0} (t from : Address) (money : ℤ)
      → from ≢ self
      → ((b b' : Address → ℤ) (p : PledgeMgr)
          → C b p
          → ((a : Address) → a ≢ t → b' a ≡ b a)
          → b t +ℤ money ≤ℤ b' t
          → C' b' p)
      → Triple (At C) (send_balance_from t self from self money) (λ _ w. At C' w) Anything
  unfolding send_balance_from
  receive-At t from money other step =
      call_token-At t (Erc.transfer_from self from self money) (λ old new. old +ℤ money ≤ℤ new)
        (λ e done.
          let moved = (transfer_from_lem self from self self self money e done).3 in
          grind (int_laws, moved))
        step

  -- Money that goes out.
  pub send-At :
      {C C' : (Address → ℤ) → PledgeMgr → Type 0} (t to : Address) (money : ℤ)
      → pos 0 ≤ℤ money
      → ((b b' : Address → ℤ) (p : PledgeMgr)
          → C b p
          → ((a : Address) → a ≢ t → b' a ≡ b a)
          → b t -ℤ money ≤ℤ b' t
          → C' b' p)
      → Triple (At C) (send_balance t self to money) (λ _ w. At C' w) Anything
  unfolding send_balance
  send-At t to money nonneg step =
      call_token-At t (Erc.transfer self to money) (λ old new. old -ℤ money ≤ℤ new)
        (λ e done. grind (int_laws, balance_of-transfer self to self money e done)) step
