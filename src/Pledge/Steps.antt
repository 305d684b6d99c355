-- ===== src/Pledge/Steps.antt =====
-- Steps of the calls of the pool, with what holds of it and of its balances after each
-- (server/contract/pledge.go).
use mefs_go_settlement.Base.{
  ◌≡◌, refl, subst, Option, some, Option-cases, ℤ, nat_eq, inl, inr, M, modify, gets, read_or_crash,
  read_or_throw, Error, methods, ◌>>=◌,
}
use mefs_go_settlement.Base.Triple.{Triple, Triple-bind, Triple-when, Triple-given}
use mefs_go_settlement.Utils.Key.{Address}
use mefs_go_settlement.Keys.{multi_key_eq}
use mefs_go_settlement.Pledge.{PledgeMgr}
use mefs_go_settlement.Pledge.Held.{At, Anything, balances, on_pledge-At}
use mefs_go_settlement.World.{World, on_pledge, find_role, get_role_mgr}

module _ (self : Address) where
  module _ (C : (Address → ℤ) → PledgeMgr → Type 0) where
    -- A field is read.
    pub read-At :
        {A : Type 0} (view : PledgeMgr → A)
        → Triple
            (At self C)
            (on_pledge self (gets view))
            (λ a w. At self (λ b p. C b p × (view p ≡ a)) w)
            (Anything self)
    unfolding gets
    read-At view = on_pledge-At self (λ a b p. C b p × (view p ≡ a)) _ (λ b p h. (h, refl))

    -- A key that must be there is looked up.
    pub must-At :
        {A : Type 0} (view : PledgeMgr → Option A)
        → Triple
            (At self C)
            (on_pledge self (read_or_crash view))
            (λ a w. At self (λ b p. C b p × (view p ≡ some a)) w)
            (Anything self)
    unfolding methods
    must-At view =
        on_pledge-At self (λ a b p. C b p × (view p ≡ some a)) _
          (λ b p h. elim (Option-cases (view p)) [ inl e ↦ rw e tt | inr (a, e) ↦ rw e (h, e) ])

    pub seek-At :
        {A : Type 0} (view : PledgeMgr → Option A) (x : Error)
        → Triple
            (At self C)
            (on_pledge self (read_or_throw view x))
            (λ a w. At self (λ b p. C b p × (view p ≡ some a)) w)
            (Anything self)
    unfolding methods
    seek-At view x =
        on_pledge-At self (λ a b p. C b p × (view p ≡ some a)) _
          (λ b p h. elim (Option-cases (view p)) [ inl e ↦ rw e tt | inr (a, e) ↦ rw e (h, e) ])

    pub role-At :
        (owner : Address)
        → Triple (At self C) (get_role_mgr owner) (λ _ w. At self C w) (Anything self)
    unfolding get_role_mgr methods
    role-At owner = record {
      at = λ w h. elim (Option-cases (find_role owner w)) [
        | inl e ↦ rw (e, get_role_mgr) tt
        | inr (r, e) ↦ rw (e, get_role_mgr) h
      ];
    }

    module _ {C' : (Address → ℤ) → PledgeMgr → Type 0} where
      pub write-At :
          (f : PledgeMgr → PledgeMgr)
          → ((b : Address → ℤ) (p : PledgeMgr) → C b p → C' b (f p))
          → Triple (At self C) (on_pledge self (modify f)) (λ _ w. At self C' w) (Anything self)
      unfolding modify
      write-At f step = on_pledge-At self (λ _ b p. C' b p) _ (λ b p h. step b p h)

      module _ {A : Type 0} {Q : A → World → Type 0} where
        pub from-At :
            (m : M World A)
            → ((b : Address → ℤ) (p : PledgeMgr) → C b p → C' b p)
            → Triple (At self C') m Q (Anything self)
            → Triple (At self C) m Q (Anything self)
        from-At m step t =
            Triple-when m
              (λ w h. record {
                pool = h.pool;
                pool_at = h.pool_at;
                holds = step (balances self w) h.pool h.holds;
              })
              t

    -- What is known of the pool, for what comes next.
    pub given-At :
        {A : Type 0} {Q : A → World → Type 0} {F : Type 0} (m : M World A)
        → ((b : Address → ℤ) (p : PledgeMgr) → C b p → F)
        → (F → Triple (At self C) m Q (Anything self))
        → Triple (At self C) m Q (Anything self)
    given-At m fact t = Triple-given m (λ w h. t (fact (balances self w) h.pool h.holds))

  -- A field is read, and something follows of what was read.
  pub learn-At :
      (C : (Address → ℤ) → PledgeMgr → Type 0) {A B : Type 0} {Q : B → World → Type 0}
      (F : A → Type 0) (view : PledgeMgr → A) (k : A → M World B)
      → ((b : Address → ℤ) (p : PledgeMgr) → C b p → F (view p))
      → ((a : A) → F a → Triple (At self C) (k a) Q (Anything self))
      → Triple (At self C) (on_pledge self (gets view) >>= k) Q (Anything self)
  learn-At C F view k fact next = Triple-bind _ _ (read-At C view) (λ a.
      given-At (λ b p. C b p × (view p ≡ a)) (k a) (λ b p h. subst F h.1 (fact b p h.0))
        (λ f. from-At (λ b p. C b p × (view p ≡ a)) (k a) (λ b p h. h.0) (next a f)))
