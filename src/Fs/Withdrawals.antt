-- ===== src/Fs/Withdrawals.antt =====
-- Withdrawals from a group's storage contract, and what it owes afterwards (server/contract/fs.go, lines
-- 641 to 722).
use mefs_go_settlement.Base.{
  ℕ, ◌≡◌, refl, arith, true, inl, inr, Bool-cases, Option-cases, ℤ, pos, ◌-ℤ◌, ◌≤ℤ◌, ltb_ℤ,
  int_laws, nat_eq, lookup, or_zero, gets, modify, methods, resume, ◌>>=◌, ◌>>◌,
}
use mefs_go_settlement.Base.Keeps.{
  Keeps, Keeps-bind, Keeps-then, Keeps-throw_if, Keeps-gets, keeps_rules,
}
use mefs_go_settlement.Base.Triple.{
  Triple, Triple-any, Triple-bind, Triple-given, Triple-when, Triple-always,
}
use mefs_go_settlement.Utils.Key.{Address}
use mefs_go_settlement.Keys.{MultiKey, key, multi_key_eq}
use mefs_go_settlement.Role.{BaseInfo, get_token_address}
use mefs_go_settlement.World.{World, as_fs, find_fs, on_fs, on_role, send_balance}
use mefs_go_settlement.World.Kept.{get_role_mgr-KeptAt}
use mefs_go_settlement.Fs.Orders.{set_balance}
use mefs_go_settlement.Fs.Calls.{taken, share_if_keeper, withdraw}
use mefs_go_settlement.Fs.Covered.{IsCovered}
use mefs_go_settlement.Fs.Solvency.{withdraw-IsCovered}
use mefs_go_settlement.Fs.Payable.{
  IsPayable, Nonneg-lookup, share_profit-Payable, set_balance-Payable,
}
use mefs_go_settlement.Fs.Kept.{FsAt, Keeps-on_fs, Keeps-of_role, only, send-FsAt}

abbrev pub PayableAt : Address → World → Type 0
PayableAt self = FsAt IsPayable self

module _ (self : Address) where
  share-PayableAt : (ki : BaseInfo) → Keeps (PayableAt self) (share_if_keeper self ki)
  unfolding share_if_keeper
  share-PayableAt ki = search (keeps_rules, Keeps-on_fs, share_profit-Payable) depth 30

  set-PayableAt :
      (k : MultiKey) (v : ℤ)
      → pos 0 ≤ℤ v
      → Keeps (PayableAt self) (on_fs self (modify (set_balance k v)))
  set-PayableAt k v more = Keeps-on_fs self self _ (set_balance-Payable k v more)

  module _ (index token : ℕ) (amount : ℤ) (low : pos 0 ≤ℤ amount) where
    left : (bal : ℤ) → pos 0 ≤ℤ bal → pos 0 ≤ℤ bal -ℤ taken amount bal
    left bal more = grind (int_laws, low, more)

    abbrev k : MultiKey
    k = key index token

    read_balance :
        Triple
          (PayableAt self)
          (on_fs self (gets (λ f. or_zero (lookup k f.balance))))
          (λ bal w. PayableAt self w × (pos 0 ≤ℤ bal))
          (PayableAt self)
    unfolding on_fs gets find_fs
    read_balance = record {
      at = λ w h. elim (Option-cases (find_fs self w)) [
        | inl e ↦ rw (e, on_fs) h
        | inr (f, e) ↦
            let payable = h.kept f e in
            rw (e, on_fs) (only f w payable, Nonneg-lookup k f.balance payable.0.balances)
      ];
    }

    -- What follows the sharing of the keepers' profit.
    pay_balance-PayableAt :
        (owner to : Address)
        → Keeps (PayableAt self) (
            on_fs self (gets (λ f. or_zero (lookup k f.balance))) >>= (λ bal.
              on_fs self (modify (set_balance k bal))
              >> (on_role owner (get_token_address token) >>= (λ t_addr.
                  send_balance t_addr self to (taken amount bal)
                  >> on_fs self (modify (set_balance k (bal -ℤ taken amount bal)))))))
    pay_balance-PayableAt owner to = record {
      at = Triple-always (PayableAt self) _ (
          Triple-bind _ _ read_balance (λ bal. Triple-given _ (λ _ q.
            Triple-when _ (λ w q'. q'.0)
              (Triple-any _
                (Keeps-then _ _ (set-PayableAt k bal q.1) (
                  Keeps-bind _ _ (Keeps-of_role self owner _) (λ t_addr.
                    Keeps-then _ _ (send-FsAt self t_addr self to (taken amount bal))
                      (set-PayableAt k (bal -ℤ taken amount bal) (left bal q.1))))).at))));
    }

    accepted-PayableAt :
        (caller : Address) → Keeps (PayableAt self) (withdraw self caller index token amount)
    unfolding withdraw
    accepted-PayableAt caller = Keeps-then _ _ (Keeps-throw_if _ _) (
        Keeps-bind _ _ (Keeps-on_fs self self _ (Keeps-gets _)) (λ owner.
          Keeps-then _ _ (get_role_mgr-KeptAt as_fs IsPayable self owner) (
            Keeps-bind _ _ (Keeps-of_role self owner _) (λ found.
              Keeps-then _ _ (share-PayableAt found.0) (pay_balance-PayableAt owner found.1)))))

  refused :
      (caller : Address) (index token : ℕ) (amount : ℤ) (w : World)
      → ltb_ℤ amount (pos 0) ≡ true
      → (withdraw self caller index token amount w).1 ≡ w
  unfolding withdraw methods resume
  refused caller index token amount w e = rw e refl

  withdraw-PayableAt :
      (caller : Address) (index token : ℕ) (amount : ℤ)
      → Keeps (PayableAt self) (withdraw self caller index token amount)
  withdraw-PayableAt caller index token amount = record {
    at = λ w h. elim (Bool-cases (ltb_ℤ amount (pos 0))) [
      | inl e ↦ rw (refused caller index token amount w e) h
      | inr e ↦ (accepted-PayableAt index token amount (ground (arith, e)) caller).at w h
    ];
  }

-- `Withdraw`, by anyone, for any index, in any token and of any amount, whether it succeeds or fails: a
-- contract that is covered in a token stays covered in it, with the same slack; and where nothing
-- that it owes, a balance, a profit or an account, is negative, and the keepers' calls are counted and add
-- up to no more than the total, that is so afterwards.
pub withdraw-IsPayable :
    (self owner taddr caller : Address) (token index tok : ℕ) (slack amount : ℤ) (w : World)
    → IsCovered self owner taddr token slack w
    → PayableAt self w
    → IsCovered self owner taddr token slack (withdraw self caller index tok amount w).1
      × PayableAt self (withdraw self caller index tok amount w).1
withdraw-IsPayable self owner taddr caller token index tok slack amount w covered payable = (
  withdraw-IsCovered self owner taddr token slack w caller index tok amount covered,
  (withdraw-PayableAt self caller index tok amount).at w payable,
)
