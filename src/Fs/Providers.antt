-- ===== src/Fs/Providers.antt =====
-- Payments to providers from a group's storage contract, and what it owes afterwards
-- (server/contract/fs.go, lines 724 to 785).
use mefs_go_settlement.Base.{
  ℕ, ◌≡◌, refl, sym, subst, some, Option-cases, inl, inr, ℤ, pos, ◌+ℤ◌, ◌-ℤ◌, ◌≤ℤ◌, int_laws,
  nat_eq, lookup, lookup-insert_self, or_zero, M, Result, ok, err, panic, gets, modify,
  read_or_throw, or_throw, resume, ◌>>=◌,
}
use mefs_go_settlement.Base.Keeps.{Keeps, Keeps-gets}
use mefs_go_settlement.Base.Triple.{
  After, Triple, Triple-any, Triple-bind, Triple-then, Triple-given, Triple-when, Triple-weaken,
  Triple-always,
}
use mefs_go_settlement.Utils.Key.{Address}
use mefs_go_settlement.Keys.{MultiKey, key, multi_key_eq}
use mefs_go_settlement.Settlement
use mefs_go_settlement.Settlement.{Settlement}
use mefs_go_settlement.Settlement.Payment.{calc-IsSound}
use mefs_go_settlement.World.{World, as_fs, on_fs, get_time}
use mefs_go_settlement.World.Kept.{get_role_mgr-KeptAt}
use mefs_go_settlement.Fs.{FsMgr}
use mefs_go_settlement.Fs.Orders.{credit, set_settlement}
use mefs_go_settlement.Fs.Funds.{calc_at, due_after, pro_withdraw_due}
use mefs_go_settlement.Fs.Calls.{pro_withdraw}
use mefs_go_settlement.Fs.Liability.{Served}
use mefs_go_settlement.Fs.Payouts.{obligation-calc}
use mefs_go_settlement.Fs.Covered.{Holds, IsCovered}
use mefs_go_settlement.Fs.Solvency.{pro_withdraw-IsCovered}
use mefs_go_settlement.Fs.Accounts.{
  IsFair, Within, Enough, IsDue, calc_paid, set-IsFair, due_after-Triple, AllSound-lookup,
  Owing-lookup, set_balance-IsDue,
}
use mefs_go_settlement.Fs.Kept.{FsAt, FsAt-so, Keeps-on_fs, Keeps-of_role, on_fs-FsAt, send-FsAt}

abbrev pub FairAt : Address → World → Type 0
FairAt self = FsAt IsFair self

module _ (now pro token : ℕ) (pay lost : ℤ) where
  abbrev k : MultiKey
  k = key pro token

  -- The contract after `calc`, before the account pays.
  abbrev CanPay : FsMgr → Type 0
  CanPay f = IsFair f × ((se : Settlement) → lookup k f.pro_info ≡ some se → Enough se)

  module _ (f : FsMgr) (se : Settlement) (known : lookup k f.pro_info ≡ some se) (h : IsFair f)
      (within : Within k pay f) where
    abbrev se' : Settlement
    se' = (Settlement.calc now pay lost se).1

    abbrev written : FsMgr
    written = set_settlement k se' f

    calc-CanPay :
        (r : Result ℤ)
        → (Settlement.calc now pay lost se).0 ≡ r
        → After (λ paid q. CanPay q × (pos 0 ≤ℤ paid)) IsFair r written
    calc-CanPay (ok paid) e =
        let (more, total, linear, aside) = calc_paid now pay lost se paid e in
        let enough : Enough se' = rw (total, aside) (within se known).0 in
        (
          (
            set-IsFair k se' f (grind (int_laws, total, linear, aside, (within se known).1))
                (calc-IsSound now pay lost se (AllSound-lookup k se f.pro_info known h.sound)) h,
            λ x at.
                let is : se' ≡ x = cc (at, lookup-insert_self k se' f.pro_info) in
                subst Enough is enough,
          ),
          more,
        )
    calc-CanPay (err x) e =
        set-IsFair k se' f
          (grind (
            int_laws,
            e,
            obligation-calc now pay lost se,
            Owing-lookup k se f.pro_info known h.owing.accounts,
          ))
          (calc-IsSound now pay lost se (AllSound-lookup k se f.pro_info known h.sound)) h
    calc-CanPay panic e =
        set-IsFair k se' f
          (grind (
            int_laws,
            e,
            obligation-calc now pay lost se,
            Owing-lookup k se f.pro_info known h.owing.accounts,
          ))
          (calc-IsSound now pay lost se (AllSound-lookup k se f.pro_info known h.sound)) h

    pay_from :
        Triple (λ q. q ≡ f) (calc_at now k pay lost se >>= due_after k) (λ due. IsDue k due) IsFair
    unfolding calc_at
    pay_from =
        Triple-bind {Q = λ paid q. CanPay q × (pos 0 ≤ℤ paid)} _ _
          (record {
            at = λ q is.
                subst
                  (λ x.
                    After (λ paid q. CanPay q × (pos 0 ≤ℤ paid)) IsFair
                      (calc_at now k pay lost se x).0 (calc_at now k pay lost se x).1)
                  (sym is) (calc-CanPay _ refl);
          })
          (λ paid.
            Triple-given _ (λ _ q. Triple-when _ (λ w q'. q'.0) (due_after-Triple k paid q.1)))

  pub pro_withdraw_due-Triple :
      Triple
        (λ f. IsFair f × Within k pay f)
        (pro_withdraw_due now pro token pay lost)
        (λ due. IsDue k due)
        IsFair
  unfolding pro_withdraw_due read_or_throw or_throw ◌>>=◌ resume
  pro_withdraw_due-Triple = record {
    at = λ f (h, within). elim (Option-cases (lookup k f.pro_info)) [
      | inl e ↦ rw e h
      | inr (se, e) ↦ rw e ((pay_from f se e h within).at f refl)
    ];
  }

module _ (self : Address) (pro token : ℕ) (pay lost : ℤ) where
  -- The provider is paid, and its balance is zero again.
  booked :
      (due : ℤ)
      → Triple
          (FsAt (IsDue (key pro token) due) self)
          (on_fs self (modify (credit (key pro token) (pos 0 -ℤ due))))
          (λ _ w. FairAt self w)
          (FairAt self)
  booked due = on_fs-FsAt self _ (record {
    at = λ f (h, is).
        unfold modify credit in
        (set_balance-IsDue (key pro token)
          (or_zero (lookup (key pro token) f.balance) +ℤ (pos 0 -ℤ due)) f (grind (int_laws, is))
          h).0;
  })

  -- What holds of the contract while other contracts are called, and after an error.
  by_others :
      {A : Type 0} (due : ℤ) (m : M World A)
      → Keeps (FsAt (IsDue (key pro token) due) self) m
      → Triple
          (FsAt (IsDue (key pro token) due) self)
          m
          (λ _ w. FsAt (IsDue (key pro token) due) self w)
          (FairAt self)
  by_others due m k = Triple-weaken _ (λ w. FsAt-so self w (λ f h. h.0)) (Triple-any _ k.at)

  now_read : {X E : World → Type 0} → Triple X (gets get_time) (λ _ w. X w) E
  unfolding gets
  now_read = record { at = λ w h. h }

  pro_withdraw-FairAt :
      (caller : Address)
      → Triple
          (FsAt (λ f. IsFair f × Within (key pro token) pay f) self)
          (pro_withdraw self caller pro token pay lost)
          (λ _ w. FairAt self w)
          (FairAt self)
  unfolding pro_withdraw
  pro_withdraw-FairAt caller = Triple-bind _ _ now_read (λ now.
      Triple-bind _ _ (on_fs-FsAt self _ (pro_withdraw_due-Triple now pro token pay lost)) (λ due.
        Triple-bind _ _ (by_others due _ (Keeps-on_fs self self _ (Keeps-gets _))) (λ owner.
          Triple-then _ _ (by_others due _ (get_role_mgr-KeptAt as_fs _ self owner)) (
            Triple-bind _ _ (by_others due _ (Keeps-of_role self owner _)) (λ found.
              Triple-bind _ _ (by_others due _ (Keeps-of_role self owner _)) (λ t_addr.
                Triple-then _ _ (by_others due _ (send-FsAt self t_addr self found.1 due))
                  (booked due)))))))

-- `ProWithdraw`, by anyone and in any token, whether it succeeds or fails: a contract that is covered in a
-- token stays covered in it, with the same slack, if the token that is paid has an account for the
-- keepers' profit where the provider has one. And where nothing that it owes, a balance, a profit or
-- an account, is negative, and no account has a negative price or has paid more than it holds as
-- earned, that is so afterwards, if the total that is asked for, with the keepers' share of it or with
-- what they have had, is within what was put aside for the account.
pub pro_withdraw-IsFair :
    (self owner taddr caller : Address) (token pro tok : ℕ) (slack pay lost : ℤ) (w : World)
    → Holds self owner taddr token (Served pro tok) slack w
    → FsAt (λ f. IsFair f × Within (key pro tok) pay f) self w
    → IsCovered self owner taddr token slack (pro_withdraw self caller pro tok pay lost w).1
      × FairAt self (pro_withdraw self caller pro tok pay lost w).1
pro_withdraw-IsFair self owner taddr caller token pro tok slack pay lost w covered fair = (
  pro_withdraw-IsCovered self owner taddr token slack w caller pro tok pay lost covered,
  Triple-always (FairAt self) _ (pro_withdraw-FairAt self pro tok pay lost caller) w fair,
)
