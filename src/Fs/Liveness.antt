-- ===== src/Fs/Liveness.antt =====
-- A role that is no keeper withdraws from its group's storage contract (server/contract/fs.go, lines 641
-- to 722).
use mefs_go_settlement.Base.{
  ℕ, ◌==◌, ◌≡◌, ◌≢◌, refl, arith, if◌then◌else◌, false, none, some, ℤ, pos, ◌+ℤ◌, ◌-ℤ◌, ◌≤ℤ◌, ◌<ℤ◌,
  int_laws, nat_eq, lookup, lookup-insert_self, or_zero, pure, ◌>>=◌, ◌>>◌, ok, gets, modify,
  methods,
}
use mefs_go_settlement.Base.Total.{
  Total, Total-bind, Total-then, Total-of, Total-bind_known, Total-guard,
}
use mefs_go_settlement.Utils.Key.{Address}
use mefs_go_settlement.Keys.{MultiKey, key, multi_key_eq}
use mefs_go_settlement.Erc.{balance_of}
use mefs_go_settlement.Erc.Balances.{transfer_ok}
use mefs_go_settlement.Role.{BaseInfo, RoleMgr, role_keeper, get_info_addr, get_token_address}
use mefs_go_settlement.World.{
  World, find_role, on_fs, on_role, on_erc, call_token, get_role_mgr, send_balance,
}
use mefs_go_settlement.Fs.{FsMgr}
use mefs_go_settlement.Fs.Orders.{set_balance}
use mefs_go_settlement.Fs.Calls.{taken, share_if_keeper, withdraw}
use mefs_go_settlement.Fs.Liability.{liability}
use mefs_go_settlement.Fs.Covered.{Holds, IsCovered, find_fs-store, find_role-store}
use mefs_go_settlement.Fs.Steps.{Names, in_world, on_fs-modify, token_address}
use mefs_go_settlement.Fs.Sends.{send-Covered}
use mefs_go_settlement.Fs.Solvency.{liability-set_balance}
use mefs_go_settlement.Fs.Liquid.{IsOwing, balance-liability}

module _ (self owner taddr : Address) (token index : ℕ) (slack : ℤ) where
  abbrev Covers : (FsMgr → Type 0) → World → Type 0
  Covers X w = Holds self owner taddr token X slack w

  abbrev k : MultiKey
  k = key index token

  abbrev bal_of : FsMgr → ℤ
  bal_of f = or_zero (lookup k f.balance)

  -- ## That the steps return

  fs_returns :
      {X : FsMgr → Type 0} (spare : ℤ) (g : FsMgr → FsMgr) (w : World)
      → Holds self owner taddr token X spare w
      → (a : Unit {0}) × ((on_fs self (modify g) w).0 ≡ ok a)
  unfolding on_fs modify
  fs_returns spare g w h = rw (h.fs_at, on_fs) (tt, refl)

  names_returns :
      {X : FsMgr → Type 0} (w : World)
      → Covers X w
      → (a : Address) × ((on_role owner (get_token_address token) w).0 ≡ ok a)
  unfolding on_role get_token_address methods
  names_returns w h = rw (h.role_at, on_role, h.listed.0) (taddr, refl)

  send_returns :
      {X : FsMgr → Type 0} (a to : Address) (money : ℤ) (w : World)
      → a ≡ taddr
      → (h : Covers X w) → pos 0 <ℤ money
      → money ≤ℤ balance_of self h.erc
      → (x : Unit {0}) × ((send_balance a self to money w).0 ≡ ok x)
  unfolding send_balance call_token on_erc
  send_returns a to money w same h more enough = rw same (
      rw (h.erc_at, call_token)
        (rw (h.erc_at, on_erc)
          (
            tt,
            transfer_ok self to money h.erc (unfold balance_of in known) (grind int_laws) enough,
          )))
    where
      known : lookup self h.erc.money ≢ none
      known e = unfold balance_of in grind (int_laws, enough, more, e)

  -- ## The steps

  module _ (r : RoleMgr) (ki : BaseInfo) (to : Address) (X : FsMgr → Type 0) where
    -- The registry is still `r`.
    abbrev Ready : World → Type 0
    Ready w = Covers X w × (find_role owner w ≡ some r)

    owner_step : Total Ready (on_fs self (gets (λ f. f.owner))) (λ a w. Ready w × (a ≡ owner))
    unfolding on_fs gets
    owner_step = record {
      at = λ w (h, at).
          let found = find_fs-store self owner taddr w h.fs h.fs r h.erc h.fs_at at h.erc_at in
          let same =
            find_fs-store self owner taddr w h.fs h.fs h.role h.erc h.fs_at h.role_at h.erc_at in
          rw (h.fs_at, on_fs)
            (
              h.fs.owner,
              refl,
              (
                (
                  in_world self owner taddr token _ h.fs h.role h.erc same h.owned h.listed
                      h.covered h.also,
                  found.1,
                ),
                h.owned,
              ),
            );
    }

    registry_step : Total Ready (get_role_mgr owner) (λ _ w. Ready w)
    unfolding get_role_mgr methods
    registry_step = record { at = λ w (h, at). rw (at, get_role_mgr) (r, refl, (h, at)) }

    info_step :
        get_info_addr index r ≡ (ok (ki, to), r)
        → Total Ready (on_role owner (get_info_addr index)) (λ a w. Covers X w × (a ≡ (ki, to)))
    unfolding on_role
    info_step info = record {
      at = λ w (h, at).
          let found = find_role-store self owner taddr w h.fs r h.erc h.fs_at at h.erc_at in
          let same : r ≡ h.role = cc (at, h.role_at) in
          rw (at, on_role)
            (rw info (
              (ki, to),
              refl,
              (
                in_world self owner taddr token _ h.fs r h.erc found h.owned (rw same h.listed)
                    h.covered h.also,
                refl,
              ),
            ));
    }

    read_step :
        (bal : ℤ)
        → ((f : FsMgr) → X f → bal_of f ≡ bal)
        → Total (Covers X) (on_fs self (gets bal_of)) (λ a w. Covers X w × (a ≡ bal))
    unfolding on_fs gets
    read_step bal known = record {
      at = λ w h.
          let same =
            find_fs-store self owner taddr w h.fs h.fs h.role h.erc h.fs_at h.role_at h.erc_at in
          rw (h.fs_at, on_fs)
            (
              bal_of h.fs,
              refl,
              (
                in_world self owner taddr token _ h.fs h.role h.erc same h.owned h.listed h.covered
                    h.also,
                known h.fs h.also,
              ),
            );
    }

    no_share :
        (ki.role_type == role_keeper) ≡ false
        → Total (Covers X) (share_if_keeper self ki) (λ _ w. Covers X w)
    unfolding share_if_keeper pure
    no_share other = record { at = λ w h. rw (other, share_if_keeper) (tt, refl, h) }

  taken_range :
      (amount bal : ℤ)
      → pos 0 ≤ℤ amount
      → pos 0 <ℤ bal
      → (pos 0 <ℤ taken amount bal) × (taken amount bal ≤ℤ bal)
  taken_range amount bal low more = (grind (int_laws, low, more), grind (int_laws, low, more))

  module _ (amount bal : ℤ) (low : pos 0 ≤ℤ amount) (more : pos 0 <ℤ bal)
      (spare : pos 0 ≤ℤ slack) where
    abbrev paid : ℤ
    paid = taken amount bal

    -- The balance, and that the contract owes it.
    abbrev Owes : FsMgr → Type 0
    Owes f = (bal_of f ≡ bal) × (bal ≤ℤ liability token f)

    abbrev Any : FsMgr → Type 0
    Any f = Unit

    send_step :
        (a to : Address)
        → Names self owner taddr token token a
        → Total
            (Covers Owes)
            (send_balance a self to paid >> on_fs self (modify (set_balance k (bal -ℤ paid))))
            (λ _ w. Covers Any w)
    send_step a to names =
        let range = taken_range amount bal low more in
        let moved = slack +ℤ (if token == token then pos 0 -ℤ paid else pos 0) in
        Total-then _ _
          (Total-of _ (send-Covered self owner taddr token token a to paid slack names) (λ w h.
            send_returns a to paid w (names.0 refl) h range.0
              (grind (int_laws, range.1, h.also.1, h.covered, spare))))
          (Total-of _
            (on_fs-modify self owner taddr token {X = Owes} {X' = Any} (set_balance k (bal -ℤ paid))
              moved slack {E = λ w. Unit} (λ f. refl)
              (λ f x. grind (int_laws, liability-set_balance token k (bal -ℤ paid) f, x.0))
              (λ f x. tt))
            (fs_returns moved (set_balance k (bal -ℤ paid))))

    -- A balance that the contract owes.
    abbrev Held : FsMgr → Type 0
    Held f = (bal_of f ≡ bal) × IsOwing f

    pay_step :
        (to : Address)
        → Total
            (Covers Held)
            (on_fs self (modify (set_balance k bal))
              >> (on_role owner (get_token_address token) >>= (λ a.
                  send_balance a self to paid
                  >> on_fs self (modify (set_balance k (bal -ℤ paid))))))
            (λ _ w. Covers Any w)
    pay_step to =
        Total-then _ _
          (Total-of _
            (on_fs-modify self owner taddr token {X' = Owes} (set_balance k bal) slack slack
              {E = λ w. Unit} (λ f. refl)
              (λ f x. grind (int_laws, liability-set_balance token k bal f, x.0))
              (λ f x. (
                rw (lookup-insert_self k bal f.balance) refl,
                grind (
                  int_laws,
                  liability-set_balance token k bal f,
                  balance-liability index token f x.1,
                  x.0,
                ),
              )))
            (fs_returns slack (set_balance k bal)))
          (Total-bind _ _
            (Total-of _ (token_address self owner taddr token token slack) names_returns)
            (λ a. record { at = λ w h. (send_step a to h.1).at w h.0 }))

    withdraw_step :
        (r : RoleMgr) (ki : BaseInfo) (to caller : Address)
        → get_info_addr index r ≡ (ok (ki, to), r)
        → (ki.role_type == role_keeper) ≡ false
        → Total (Ready r ki to Held) (withdraw self caller index token amount) (λ _ w. Covers Any w)
    unfolding withdraw
    withdraw_step r ki to caller info other =
        Total-then _ _ (Total-guard _ _ (ground (arith, low))) (
          Total-bind_known _ owner _ (owner_step r ki to Held) (
            Total-then _ _ (registry_step r ki to Held) (
              Total-bind_known _ (ki, to) _ (info_step r ki to Held info)
                (Total-then _ _ (no_share r ki to Held other) (
                  Total-bind_known _ bal _ (read_step r ki to Held bal (λ f x. x.0))
                    (pay_step to))))))

-- A role that is no keeper and has a positive balance in its group's storage contract can withdraw: the
-- call succeeds, with any amount that is not negative, where the contract is covered in the token with a
-- slack that is not negative, nothing that it owes is negative, and the registry knows the role. The
-- contract is covered afterwards, with the same slack.
pub withdraw_succeeds :
    (self owner taddr caller to : Address) (token index : ℕ) (slack amount bal : ℤ) (r : RoleMgr)
    (ki : BaseInfo) (w : World)
    → Holds self owner taddr token
        (λ f. (or_zero (lookup (key index token) f.balance) ≡ bal) × IsOwing f)
        slack
        w
    → pos 0 ≤ℤ slack
    → pos 0 ≤ℤ amount
    → pos 0 <ℤ bal
    → find_role owner w ≡ some r
    → get_info_addr index r ≡ (ok (ki, to), r)
    → (ki.role_type == role_keeper) ≡ false
    → ((withdraw self caller index token amount w).0 ≡ ok tt)
      × IsCovered self owner taddr token slack (withdraw self caller index token amount w).1
withdraw_succeeds self owner taddr caller to token index slack amount bal r ki w h spare low more at
      info other =
    let (x, done, covered) =
      (withdraw_step self owner taddr token index slack amount bal low more spare r ki to caller
          info other).at
        w (h, at) in
    (done, covered)
