-- ===== src/Fs/Solvency.antt =====
-- A group's storage contract holds the tokens that it owes (server/contract/fs.go, lines 598 to 785).
use mefs_go_settlement.Base.{
  ℕ, inl, inr, Option-cases, ◌==◌, ◌≡◌, ◌≢◌, refl, arith, if◌then◌else◌, ℤ, pos, ◌+ℤ◌, ◌-ℤ◌,
  int_laws, nat_eq, lookup, lookup-insert_self, or_zero, M, gets, modify, methods, ◌>>=◌, ◌>>◌,
}
use mefs_go_settlement.Base.Triple.{
  Triple, Triple-given, Triple-when, Triple-bind, Triple-then, Triple-known, Triple-throw_if,
  Triple-weaken, Triple-if, Triple-always, Triple-pure,
}
use mefs_go_settlement.Utils.Key.{Address}
use mefs_go_settlement.Keys.{MultiKey, key, multi_key_eq}
use mefs_go_settlement.Role.{BaseInfo, RoleMgr, get_token_address, get_info_addr, address_at}
use mefs_go_settlement.World.{World, on_fs, on_role, send_balance, get_time}
use mefs_go_settlement.Fs.{FsMgr}
use mefs_go_settlement.Fs.Orders.{credit, meet_token, set_balance}
use mefs_go_settlement.Fs.Funds.{share_profit, pro_withdraw_due}
use mefs_go_settlement.Fs.Calls.{recharge, taken, share_if_keeper, withdraw, pro_withdraw}
use mefs_go_settlement.Fs.Liability.{Served, liability, balances_in-insert}
use mefs_go_settlement.Fs.Books.{liability-meet_token, liability-credit}
use mefs_go_settlement.Fs.Payouts.{liability-share_profit, liability-pro_withdraw_due}
use mefs_go_settlement.Fs.Owned.{share_profit-Owned, pro_withdraw_due-Owned}
use mefs_go_settlement.Fs.Covered.{Holds, IsCovered}
use mefs_go_settlement.Fs.Sends.{send_from-Covered, send-Covered}
use mefs_go_settlement.Fs.Steps.{
  Names, in_world, get_owner, find_registry, token_address, on_fs-modify, on_fs-Covered,
  on_fs-reads, on_role-reads,
}

-- What is known of the contract beyond what it holds and owes: nothing, an account, or a balance.
abbrev Any : FsMgr → Type 0
Any f = Unit

abbrev HasBalance : (k : MultiKey) (bal : ℤ) → FsMgr → Type 0
HasBalance k bal f = or_zero (lookup k f.balance) ≡ bal

pub liability-set_balance :
    (t : ℕ) (k : MultiKey) (v : ℤ) (f : FsMgr)
    → liability t (set_balance k v f)
      ≡ liability t f +ℤ (if k.token_index == t then v -ℤ or_zero (lookup k f.balance) else pos 0)
unfolding liability
liability-set_balance t k v f = grind (int_laws, balances_in-insert t k v f.balance)

liability-due-Served :
    (t now pro token : ℕ) (pay lost : ℤ) (f : FsMgr)
    → Served pro token f
    → liability t (pro_withdraw_due now pro token pay lost f).1 ≡ liability t f
liability-due-Served t now pro token pay lost f served =
    elim (Option-cases (lookup (key pro token) f.pro_info)) [
      | inl e ↦ unfold pro_withdraw_due methods in rw e refl
      | inr (se, e) ↦ liability-pro_withdraw_due t now pro token pay lost f (served (λ none_at. cc))
    ]

module _ (self owner taddr : Address) (token : ℕ) where
  abbrev Covers : (FsMgr → Type 0) → ℤ → World → Type 0
  Covers = Holds self owner taddr token

  forget-Covers :
      {X : FsMgr → Type 0} (slack : ℤ) (w : World) → Covers X slack w → Covers Any slack w
  forget-Covers slack w h =
      in_world self owner taddr token w h.fs h.role h.erc (h.fs_at, h.role_at, h.erc_at) h.owned
        h.listed h.covered tt

  -- What is left of a call once the address of token number `tok` has been found, before `rest`.
  with_token :
      {X X' : FsMgr → Type 0} (tok : ℕ) (slack : ℤ) (rest : Address → M World (Unit {0}))
      → ((a : Address)
          → Names self owner taddr token tok a
          → Triple (Covers X slack) (rest a) (λ _ w. Covers X' slack w) (Covers Any slack))
      → Triple
          (Covers X slack)
          (on_role owner (get_token_address tok) >>= rest)
          (λ _ w. Covers X' slack w)
          (Covers Any slack)
  with_token tok slack rest t =
      Triple-bind _ _
        (Triple-weaken _ (forget-Covers slack) (token_address self owner taddr token tok slack))
        (λ a. Triple-given _ (λ w h. Triple-when _ (λ w' k. k.0) (t a h.1)))

  with_owner :
      (slack : ℤ) (rest : Address → M World (Unit {0}))
      → Triple (Covers Any slack) (rest owner) (λ _ w. Covers Any slack w) (Covers Any slack)
      → Triple
          (Covers Any slack)
          (on_fs self (gets (λ f. f.owner)) >>= rest)
          (λ _ w. Covers Any slack w)
          (Covers Any slack)
  with_owner slack rest t =
      Triple-bind _ _ (get_owner self owner taddr token slack) (λ a. Triple-known a owner rest t)

  -- The token is sent, and then booked by `g`.
  send_and_book :
      {X : FsMgr → Type 0} (tok : ℕ) (a to : Address) (money slack : ℤ) (g : FsMgr → FsMgr)
      → Names self owner taddr token tok a
      → ((f : FsMgr) → (g f).owner ≡ f.owner)
      → ((f : FsMgr)
          → X f
          → liability token (g f)
            ≡ liability token f +ℤ (if tok == token then pos 0 -ℤ money else pos 0))
      → Triple
          (Covers X slack)
          (send_balance a self to money >> on_fs self (modify g))
          (λ _ w. Covers Any slack w)
          (Covers Any slack)
  send_and_book tok a to money slack g names same_owner less =
      let moved = if tok == token then pos 0 -ℤ money else pos 0 in
      Triple-then _ _
        (Triple-weaken _ (forget-Covers slack)
          (send-Covered self owner taddr token tok a to money slack names))
        (on_fs-modify self owner taddr token g (slack +ℤ moved) slack same_owner
          (λ f x. grind (int_laws, less f x)) (λ f x. tt))

  recharge-Triple :
      (caller addr : Address) (index tok : ℕ) (money slack : ℤ)
      → addr ≢ self
      → Triple
          (Covers Any slack)
          (recharge self caller addr index tok money)
          (λ _ w. Covers Any slack w)
          (Covers Any slack)
  unfolding recharge
  recharge-Triple caller addr index tok money slack other = with_owner slack _ (
      Triple-then _ _ (Triple-throw_if _ _) (
        Triple-then _ _ (find_registry self owner taddr token slack) (
          with_token tok slack _ (λ a names.
            Triple-then _ _
              (on_fs-modify self owner taddr token (meet_token tok) slack slack
                (λ f. unfold meet_token in ground arith)
                (λ f x. grind (int_laws, liability-meet_token token tok f)) (λ f x. tt))
              (Triple-then _ _
                (send_from-Covered self owner taddr token tok a addr money slack names other)
                (on_fs-modify self owner taddr token (credit (key index tok) money)
                  (slack +ℤ (if tok == token then money else pos 0)) slack
                  (λ f. unfold credit in refl)
                  (λ f x. grind (int_laws, liability-credit token (key index tok) money f))
                  (λ f x. tt)))))))

  now-Triple :
      {X : FsMgr → Type 0} {E : World → Type 0} (slack : ℤ)
      → Triple (Covers X slack) (gets get_time) (λ _ w. Covers X slack w) E
  unfolding gets
  now-Triple slack = record { at = λ w h. h }

  get_info_addr-reads : (index : ℕ) (r : RoleMgr) → (get_info_addr index r).1 ≡ r
  unfolding get_info_addr address_at methods
  get_info_addr-reads index r = ground arith

  pro_withdraw-Triple :
      (caller : Address) (pro tok : ℕ) (pay lost slack : ℤ)
      → Triple
          (Covers (Served pro tok) slack)
          (pro_withdraw self caller pro tok pay lost)
          (λ _ w. Covers Any slack w)
          (Covers Any slack)
  unfolding pro_withdraw
  pro_withdraw-Triple caller pro tok pay lost slack = Triple-bind _ _ (now-Triple slack) (λ now.
      Triple-bind _ _
        (on_fs-Covered self owner taddr token (pro_withdraw_due now pro tok pay lost) slack
          (λ f. (pro_withdraw_due-Owned f.owner now pro tok pay lost).at f refl)
          (λ f served. liability-due-Served token now pro tok pay lost f served) (λ f x. tt))
        (λ this_pay. with_owner slack _ (
          Triple-then _ _ (find_registry self owner taddr token slack) (
            Triple-bind _ _
              (on_role-reads self owner taddr token (get_info_addr pro) slack
                (get_info_addr-reads pro))
              (λ found. with_token tok slack _ (λ a names.
                send_and_book tok a found.1 this_pay slack
                  (credit (key pro tok) (pos 0 -ℤ this_pay)) names (λ f. unfold credit in refl)
                  (λ f x. liability-credit token (key pro tok) (pos 0 -ℤ this_pay) f)))))))

  share_if_keeper-Triple :
      (ki : BaseInfo) (slack : ℤ)
      → Triple
          (Covers Any slack)
          (share_if_keeper self ki)
          (λ _ w. Covers Any slack w)
          (Covers Any slack)
  unfolding share_if_keeper
  share_if_keeper-Triple ki slack =
      Triple-if _ _ _
        (Triple-bind _ _ (now-Triple slack) (λ now.
          on_fs-Covered self owner taddr token (share_profit now) slack
            (λ f. (share_profit-Owned f.owner now).at f refl)
            (λ f x. liability-share_profit token now f) (λ f x. tt)))
        (Triple-pure tt)

  -- The end of `Withdraw`, once the keepers' profit has been shared.
  pay_balance-Triple :
      (index tok : ℕ) (to : Address) (amount slack : ℤ)
      → let k = key index tok in
        Triple
          (Covers Any slack)
          (on_fs self (gets (λ f. or_zero (lookup k f.balance))) >>= (λ bal.
            on_fs self (modify (set_balance k bal))
            >> (on_role owner (get_token_address tok) >>= (λ t_addr.
                send_balance t_addr self to (taken amount bal)
                >> on_fs self (modify (set_balance k (bal -ℤ taken amount bal)))))))
          (λ _ w. Covers Any slack w)
          (Covers Any slack)
  pay_balance-Triple index tok to amount slack =
      let k = key index tok in
      Triple-bind _ _ (on_fs-reads self owner taddr token (λ f. or_zero (lookup k f.balance)) slack)
        (λ bal.
          Triple-then _ _
            (on_fs-modify self owner taddr token {X' = HasBalance k bal} (set_balance k bal) slack
              slack (λ f. refl)
              (λ f same. grind (int_laws, liability-set_balance token k bal f, same))
              (λ f same. rw (lookup-insert_self k bal f.balance) refl))
            (with_token tok slack _ (λ a names.
              send_and_book tok a to (taken amount bal) slack _ names (λ f. refl)
                (λ f same.
                  grind
                    (int_laws, liability-set_balance token k (bal -ℤ taken amount bal) f, same)))))

  withdraw-Triple :
      (caller : Address) (index tok : ℕ) (amount slack : ℤ)
      → Triple
          (Covers Any slack)
          (withdraw self caller index tok amount)
          (λ _ w. Covers Any slack w)
          (Covers Any slack)
  unfolding withdraw
  withdraw-Triple caller index tok amount slack = Triple-then _ _ (Triple-throw_if _ _) (
      with_owner slack _ (
        Triple-then _ _ (find_registry self owner taddr token slack) (
          Triple-bind _ _
            (on_role-reads self owner taddr token (get_info_addr index) slack
              (get_info_addr-reads index))
            (λ found.
              Triple-then _ _ (share_if_keeper-Triple found.0 slack)
                (pay_balance-Triple index tok found.1 amount slack)))))

module _ (self owner taddr : Address) (token : ℕ) (slack : ℤ) (w : World) where
  -- `Recharge`, in any token, by an address other than the contract itself keeps the contract covered
  -- in each token, with the same slack, whether the call succeeds or fails: it goes on holding at
  -- least what it owes in that token and the slack.
  pub recharge-IsCovered :
      (caller addr : Address) (index tok : ℕ) (money : ℤ)
      → addr ≢ self
      → IsCovered self owner taddr token slack w
      → IsCovered self owner taddr token slack (recharge self caller addr index tok money w).1
  recharge-IsCovered caller addr index tok money other h =
      Triple-always (Holds self owner taddr token Any slack) _
        (recharge-Triple self owner taddr token caller addr index tok money slack other) w h

  -- `Withdraw`, by anyone, for any index, in any token and of any amount, keeps the contract covered
  -- in each token, with the same slack, whether the call succeeds or fails.
  pub withdraw-IsCovered :
      (caller : Address) (index tok : ℕ) (amount : ℤ)
      → IsCovered self owner taddr token slack w
      → IsCovered self owner taddr token slack (withdraw self caller index tok amount w).1
  withdraw-IsCovered caller index tok amount h =
      Triple-always (Holds self owner taddr token Any slack) _
        (withdraw-Triple self owner taddr token caller index tok amount slack) w h

  -- `ProWithdraw`, by anyone, in any token and of any pay and loss, keeps the contract covered in each
  -- token, with the same slack, whether the call succeeds or fails, where the token that is paid has
  -- an account for the keepers' profit if the provider has an account in it.
  pub pro_withdraw-IsCovered :
      (caller : Address) (pro tok : ℕ) (pay lost : ℤ)
      → Holds self owner taddr token (Served pro tok) slack w
      → IsCovered self owner taddr token slack (pro_withdraw self caller pro tok pay lost w).1
  pro_withdraw-IsCovered caller pro tok pay lost h =
      Triple-always (Holds self owner taddr token Any slack) _
        (pro_withdraw-Triple self owner taddr token caller pro tok pay lost slack) w h
