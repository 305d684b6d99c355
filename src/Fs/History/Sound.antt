-- ===== src/Fs/History/Sound.antt =====
-- What the steps of a group's storage contract keep (server/contract/fs.go).
use mefs_go_settlement.Base.{ℕ, ◌≡◌, refl, sym, M, arith, ℤ, int_laws, nat_eq, ◌∙◌, modify, methods}
use mefs_go_settlement.Base.Keeps.{Keeps, Keeps-modify, keeps_rules}
use mefs_go_settlement.Base.Triple.{Triple-always}
use mefs_go_settlement.Utils.Key.{Address}
use mefs_go_settlement.Keys.{key, multi_key_eq}
use mefs_go_settlement.World.{World, on_fs, find_fs}
use mefs_go_settlement.Fs.{FsMgr}
use mefs_go_settlement.Fs.Orders.{add_keeper, create_fs, open_fs, meet_token}
use mefs_go_settlement.Fs.Liability.{liability, Served}
use mefs_go_settlement.Fs.Owned.{
  Owned, add_keeper-Owned, create_fs-Owned, add_order-Owned, sub_order-Owned, sub_repair-Owned,
}
use mefs_go_settlement.Fs.Books.{liability-meet_token, liability-add_order}
use mefs_go_settlement.Fs.Closings.{liability-sub_order, liability-sub_repair}
use mefs_go_settlement.Fs.Covered.{Holds, IsCovered}
use mefs_go_settlement.Fs.Steps.{in_world, on_fs-Covered}
use mefs_go_settlement.Fs.Solvency.{recharge-IsCovered, withdraw-IsCovered, pro_withdraw-IsCovered}
use mefs_go_settlement.Fs.Met.{Met}
use mefs_go_settlement.Fs.Met.Methods.{
  add_keeper-Met, create_fs-Met, add_order-Met, sub_order-Met, sub_repair-Met,
}
use mefs_go_settlement.Fs.Kept.{Keeps-on_fs}
use mefs_go_settlement.Fs.Met.Calls.{MetAt, recharge-MetAt, withdraw-MetAt, pro_withdraw-MetAt}
use mefs_go_settlement.Fs.History.{
  Elsewhere, Step, Reach, recharged, withdrawn, pro_withdrawn, keeper_added, fs_created,
  order_added, order_ended, repair_ended, elsewhere, here, next,
}

-- ## The methods of the contract

liability-add_keeper :
    (t : ℕ) (caller : Address) (kindex : ℕ) (f : FsMgr)
    → liability t (add_keeper caller kindex f).1 ≡ liability t f
unfolding add_keeper liability methods
liability-add_keeper t caller kindex f = ground arith

liability-open_fs : (t user : ℕ) (f : FsMgr) → liability t (open_fs user f) ≡ liability t f
unfolding open_fs liability
liability-open_fs t user f = ground arith

-- `P` says that what is owed in token `t` is the sum `owed`.
abbrev Owes : (t : ℕ) (owed : ℤ) → FsMgr → Type 0
Owes t owed f = liability t f ≡ owed

module _ (t : ℕ) (owed : ℤ) where
  Owes-open_fs : (user : ℕ) → Keeps (Owes t owed) (modify (open_fs user))
  Owes-open_fs user = Keeps-modify _ (λ f h. liability-open_fs t user f ∙ h)

  Owes-meet_token : (token : ℕ) → Keeps (Owes t owed) (modify (meet_token token))
  Owes-meet_token token = Keeps-modify _ (λ f h. liability-meet_token t token f ∙ h)

  create_fs-Owes : (caller : Address) (user : ℕ) → Keeps (Owes t owed) (create_fs caller user)
  unfolding create_fs
  create_fs-Owes caller user = search (keeps_rules, Owes-open_fs, Owes-meet_token) depth 20

-- ## What every step keeps

module _ (self owner taddr : Address) (token : ℕ) (slack : ℤ) where
  -- The contract is covered, and it has met the tokens of its accounts.
  abbrev pub IsSound : World → Type 0
  IsSound w = IsCovered self owner taddr token slack w × MetAt self w

  with_also :
      (X : FsMgr → Type 0) (w : World)
      → ((f : FsMgr) → Met f → X f)
      → IsSound w
      → Holds self owner taddr token X slack w
  unfolding find_fs
  with_also X w known (h, m) =
      in_world self owner taddr token w h.fs h.role h.erc (h.fs_at, h.role_at, h.erc_at) h.owned
        h.listed h.covered (known h.fs (m.kept h.fs h.fs_at))

  on_fs-IsSound :
      (m : M FsMgr (Unit {0})) (w : World)
      → ((o : Address) → Keeps (Owned o) m)
      → ((f : FsMgr) → Met f → liability token (m f).1 ≡ liability token f)
      → Keeps Met m
      → IsSound w
      → IsSound (on_fs self m w).1
  on_fs-IsSound m w owned same met h = (
    Triple-always (Holds self owner taddr token (λ f. Unit) slack) _
        (on_fs-Covered self owner taddr token m slack (λ f. (owned f.owner).at f refl) same
          (λ f x. tt))
        w (with_also Met w (λ f k. k) h),
    (Keeps-on_fs self self m met).at w h.1,
  )

  Elsewhere-IsSound : (w w' : World) → Elsewhere self owner taddr w w' → IsSound w → IsSound w'
  unfolding find_fs
  Elsewhere-IsSound w w' x (h, m) =
      let (e, at, more) = x.holds h.erc h.erc_at in
      (
        in_world self owner taddr token w' h.fs h.role e
            (x.same_fs ∙ h.fs_at, x.same_role ∙ h.role_at, at) h.owned h.listed
            (grind (int_laws, h.covered, more)) tt,
        record { kept = λ f found. m.kept f (sym x.same_fs ∙ found) },
      )

  Step-IsSound : {w w' : World} → Step self owner taddr w w' → IsSound w → IsSound w'
  Step-IsSound (recharged w caller addr index tok money other) h = (
    recharge-IsCovered self owner taddr token slack w caller addr index tok money other h.0,
    (recharge-MetAt self caller addr index tok money).at w h.1,
  )
  Step-IsSound (withdrawn w caller index tok amount) h = (
    withdraw-IsCovered self owner taddr token slack w caller index tok amount h.0,
    (withdraw-MetAt self caller index tok amount).at w h.1,
  )
  Step-IsSound (pro_withdrawn w caller pro tok pay lost) h = (
    pro_withdraw-IsCovered self owner taddr token slack w caller pro tok pay lost
        (with_also (Served pro tok) w (λ f met. met (key pro tok)) h),
    (pro_withdraw-MetAt self caller pro tok pay lost).at w h.1,
  )
  Step-IsSound (keeper_added w caller kindex) h =
      on_fs-IsSound _ w (λ o. add_keeper-Owned o caller kindex)
        (λ f met. liability-add_keeper token caller kindex f) (add_keeper-Met caller kindex) h
  Step-IsSound (fs_created w caller user) h =
      on_fs-IsSound _ w (λ o. create_fs-Owned o caller user)
        (λ f met. (create_fs-Owes token (liability token f) caller user).at f refl)
        (create_fs-Met caller user) h
  Step-IsSound (order_added w caller kindex user pro start end size nonce tok sprice) h =
      on_fs-IsSound _ w
        (λ o. add_order-Owned o caller kindex user pro start end size nonce tok sprice)
        (λ f met.
          liability-add_order token caller kindex user pro start end size nonce tok sprice f)
        (add_order-Met tok caller kindex user pro start end size nonce sprice) h
  Step-IsSound (order_ended w now caller kindex user pro start end size nonce tok sprice) h =
      on_fs-IsSound _ w
        (λ o. sub_order-Owned o now caller kindex user pro start end size nonce tok sprice)
        (λ f met.
          liability-sub_order token now caller kindex user pro start end size nonce tok sprice f
            (met (key pro tok)))
        (sub_order-Met now caller kindex user pro start end size nonce tok sprice) h
  Step-IsSound (repair_ended w now caller kindex pro newpro start end size nonce tok sprice) h =
      on_fs-IsSound _ w
        (λ o. sub_repair-Owned o now caller kindex pro newpro start end size nonce tok sprice)
        (λ f met.
          liability-sub_repair token now caller kindex pro newpro start end size nonce tok sprice f
            (met (key newpro tok)))
        (sub_repair-Met now caller kindex pro newpro start end size nonce tok sprice) h
  Step-IsSound (elsewhere w w' x) h = Elsewhere-IsSound w w' x h

  -- Whatever calls are made of the contract, in whatever order, by anyone and with whatever result,
  -- but for `AddRepair` and for recharging by the contract itself, and whatever else happens in
  -- between that leaves the contract and its registry alone and takes none of its tokens: a contract
  -- that is covered in a token, and has met the tokens of its accounts, is still so, with the same
  -- slack. What it owes is a sum here, in which a negative account counts against the others.
  pub Reach-IsSound : {w w' : World} → Reach self owner taddr w w' → IsSound w → IsSound w'
  Reach-IsSound here h = h
  Reach-IsSound (next r s) h = Step-IsSound s (Reach-IsSound r h)
