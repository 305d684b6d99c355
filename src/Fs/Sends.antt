-- ===== src/Fs/Sends.antt =====
-- A group's storage contract sends and receives tokens: its own part of the calls of
-- server/contract/erc20.go that server/contract/fs.go makes.
use mefs_go_settlement.Base.{
  ℕ, ◌==◌, Bool, true, false, if◌then◌else◌, ◌≡◌, ◌≢◌, refl, arith, ℤ, pos, ◌+ℤ◌, ◌-ℤ◌, ◌≤ℤ◌,
  int_laws, nat_eq, M, ok, err, panic, Result, methods, inl, inr, Option-cases,
}
use mefs_go_settlement.Base.Triple.{After, Triple, Triple-any}
use mefs_go_settlement.Utils.Key.{Address}
use mefs_go_settlement.Keys.{multi_key_eq}
use mefs_go_settlement.Erc
use mefs_go_settlement.Erc.{ErcToken, balance_of}
use mefs_go_settlement.Erc.Balances.{balance_of-transfer, transfer_from_lem}
use mefs_go_settlement.World.{
  World, erc_token, find_erc, on_erc, store, call_token, send_balance, send_balance_from,
}
use mefs_go_settlement.Fs.{FsMgr}
use mefs_go_settlement.Fs.Steps.{in_world, Names}
use mefs_go_settlement.Fs.Covered.{find_other-store, Holds, find_erc-store}

transfer_nonneg :
    (caller to : Address) (value : ℤ) (e : ErcToken)
    → (Erc.transfer caller to value e).0 ≡ ok tt
    → pos 0 ≤ℤ value
unfolding Erc.transfer methods
transfer_nonneg caller to value e h = ground (arith, h)

module _ (self : Address) where
  -- A call of the token that changes what this contract holds by what the slack changes, or fails
  -- and changes nothing.
  abbrev Moves : (slack slack' : ℤ) (e : ErcToken) → Result (Unit {0}) → ErcToken → Type 0
  Moves slack slack' e r e' =
      After (λ _ e''. balance_of self e +ℤ slack' ≤ℤ balance_of self e'' +ℤ slack) (λ e''. e'' ≡ e)
        r e'

  by_result :
      (slack slack' : ℤ) (e : ErcToken) (r : Result (Unit {0})) (e' : ErcToken)
      → (r ≡ ok tt → balance_of self e +ℤ slack' ≤ℤ balance_of self e' +ℤ slack)
      → (r ≢ ok tt → e' ≡ e)
      → Moves slack slack' e r e'
  by_result slack slack' e (ok tt) e' moved kept = moved refl
  by_result slack slack' e (err x) e' moved kept = kept (λ h. ground arith)
  by_result slack slack' e panic e' moved kept = kept (λ h. ground arith)

  transfer_from-Moves :
      (addr : Address) (money slack : ℤ) (e : ErcToken)
      → addr ≢ self
      → Moves slack
          (slack +ℤ money)
          e
          (Erc.transfer_from self addr self money e).0
          (Erc.transfer_from self addr self money e).1
  transfer_from-Moves addr money slack e other =
      by_result _ _ e _ _
        (λ done.
          let moved = (transfer_from_lem self addr self self self money e done).3 in
          grind (int_laws, moved))
        (λ failed. unfold Erc.transfer_from methods in ground (arith, failed))

  transfer-Moves :
      (to : Address) (money slack : ℤ) (e : ErcToken)
      → Moves slack
          (slack +ℤ (pos 0 -ℤ money))
          e
          (Erc.transfer self to money e).0
          (Erc.transfer self to money e).1
  transfer-Moves to money slack e =
      by_result _ _ e _ _
        (λ done. grind (
          int_laws,
          balance_of-transfer self to self money e done,
          transfer_nonneg self to money e done,
        ))
        (λ failed. unfold Erc.transfer methods in ground (arith, failed))

module _ (self owner taddr : Address) (token : ℕ) where
  abbrev Covered : (FsMgr → Type 0) → ℤ → World → Type 0
  Covered X slack w = Holds self owner taddr token X slack w

  module _ {X : FsMgr → Type 0} where
    Moves-Covered :
        (slack slack' : ℤ) (w : World) (h : Covered X slack w) (r : Result (Unit {0}))
        (e' : ErcToken)
        → Moves self slack slack' h.erc r e'
        → After (λ _ w'. Covered X slack' w') (Covered X slack) r (store taddr (erc_token e') w)
    Moves-Covered slack slack' w h (ok tt) e' moved =
        in_world self owner taddr token _ h.fs h.role e'
          (find_erc-store self owner taddr w h.fs h.role h.erc e' h.fs_at h.role_at h.erc_at)
          h.owned h.listed (grind (int_laws, moved, h.covered)) h.also
    Moves-Covered slack slack' w h (err x) e' same =
        in_world self owner taddr token _ h.fs h.role e'
          (find_erc-store self owner taddr w h.fs h.role h.erc e' h.fs_at h.role_at h.erc_at)
          h.owned h.listed (rw same h.covered) h.also
    Moves-Covered slack slack' w h panic e' same =
        in_world self owner taddr token _ h.fs h.role e'
          (find_erc-store self owner taddr w h.fs h.role h.erc e' h.fs_at h.role_at h.erc_at)
          h.owned h.listed (rw same h.covered) h.also

    call_token-Covered :
        (m : M ErcToken (Unit {0})) (slack slack' : ℤ)
        → ((e : ErcToken) → Moves self slack slack' e (m e).0 (m e).1)
        → Triple
            (Covered X slack)
            (call_token taddr m)
            (λ _ w. Covered X slack' w)
            (Covered X slack)
    unfolding call_token on_erc
    call_token-Covered m slack slack' moves = record {
      at = λ w h.
          rw (h.erc_at, call_token)
            (rw (h.erc_at, on_erc)
              (Moves-Covered slack slack' w h (m h.erc).0 (m h.erc).1 (moves h.erc)));
    }

    -- A call of another token.
    call_token-Other :
        (a : Address) (m : M ErcToken (Unit {0})) (slack : ℤ)
        → a ≢ taddr
        → Triple (Covered X slack) (call_token a m) (λ _ w. Covered X slack w) (Covered X slack)
    unfolding call_token on_erc
    call_token-Other a m slack other = Triple-any _ (λ w h. elim (Option-cases (find_erc a w)) [
      | inl e ↦ rw (e, call_token) h
      | inr (t, e) ↦
          rw (e, call_token)
            (rw (e, on_erc)
              (in_world self owner taddr token _ h.fs h.role h.erc
                (find_other-store self owner taddr w a t (m t).1 h.fs h.role h.erc e other h.fs_at
                  h.role_at h.erc_at)
                h.owned h.listed h.covered h.also))
    ])

    -- A call of the token that the registry names: it counts where that is `taddr`.
    call_token-Named :
        (tok : ℕ) (a : Address) (m : M ErcToken (Unit {0})) (slack money : ℤ)
        → Names self owner taddr token tok a
        → Triple
            (Covered X slack)
            (call_token taddr m)
            (λ _ w. Covered X (slack +ℤ money) w)
            (Covered X slack)
        → Triple
            (Covered X slack)
            (call_token a m)
            (λ _ w. Covered X (slack +ℤ (if tok == token then money else pos 0)) w)
            (Covered X slack)
    call_token-Named tok a m slack money names t = by (tok == token) refl
      where
        by :
            (b : Bool)
            → (tok == token) ≡ b
            → Triple
                (Covered X slack)
                (call_token a m)
                (λ _ w. Covered X (slack +ℤ (if b then money else pos 0)) w)
                (Covered X slack)
        by true e = rw (names.0 (ground (arith, e))) t
        by false e =
            let still : slack +ℤ pos 0 ≡ slack = grind int_laws in
            rw still (call_token-Other a m slack (λ same. ground (arith, e, names.1 same)))

    pub send_from-Covered :
        (tok : ℕ) (a addr : Address) (money slack : ℤ)
        → Names self owner taddr token tok a
        → addr ≢ self
        → Triple
            (Covered X slack)
            (send_balance_from a self addr self money)
            (λ _ w. Covered X (slack +ℤ (if tok == token then money else pos 0)) w)
            (Covered X slack)
    unfolding send_balance_from
    send_from-Covered tok a addr money slack names other =
        call_token-Named tok a _ slack money names (
          call_token-Covered _ slack (slack +ℤ money)
            (λ e. transfer_from-Moves self addr money slack e other))

    pub send-Covered :
        (tok : ℕ) (a to : Address) (money slack : ℤ)
        → Names self owner taddr token tok a
        → Triple
            (Covered X slack)
            (send_balance a self to money)
            (λ _ w. Covered X (slack +ℤ (if tok == token then pos 0 -ℤ money else pos 0)) w)
            (Covered X slack)
    unfolding send_balance
    send-Covered tok a to money slack names =
        call_token-Named tok a _ slack (pos 0 -ℤ money) names (
          call_token-Covered _ slack (slack +ℤ (pos 0 -ℤ money))
            (λ e. transfer-Moves self to money slack e))
