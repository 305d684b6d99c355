-- ===== src/Fs/Books.antt =====
-- Orders move what is owed inside a group's storage contract, and change nothing of the sum
-- (server/contract/fs.go, lines 255 to 532).
use mefs_go_settlement.Base.{
  ℕ, ◌==◌, ◌≡◌, refl, arith, if◌then◌else◌, Option, none, some, ℤ, pos, ◌+ℤ◌, ◌-ℤ◌, int_laws,
  nat_eq, lookup, lookup-insert, or_zero, ◌∙◌, modify,
}
use mefs_go_settlement.Base.Keeps.{Keeps, Keeps-modify, keeps_rules}
use mefs_go_settlement.Utils.Key.{Address}
use mefs_go_settlement.Keys.{MultiKey, key, multi_key_eq}
use mefs_go_settlement.Settlement
use mefs_go_settlement.Settlement.{Settlement, new_settlement}
use mefs_go_settlement.Fs.{FsMgr, FsInfo}
use mefs_go_settlement.Fs.Orders.{
  meet_token, book_order, add_order, count_call, get_fs_info, or_new_settlement, set_settlement,
  credit, set_fs,
}
use mefs_go_settlement.Fs.Liability.{
  obligation, obligation_or_zero, liability, balances_in-insert, accounts_in-insert,
}

-- An account with a new order.
pub obligation-add :
    (start size : ℕ) (sprice pay manage : ℤ) (se : Settlement)
    → obligation (Settlement.add start size sprice pay manage se) ≡ obligation se +ℤ pay +ℤ manage
unfolding Settlement.add
obligation-add start size sprice pay manage se = grind int_laws

pub liability-meet_token :
    (t token : ℕ) (f : FsMgr) → liability t (meet_token token f) ≡ liability t f
unfolding liability meet_token
liability-meet_token t token f = grind (int_laws, lookup-insert token t (pos 0) f.t_acc)

pub liability-count_call :
    (t kindex : ℕ) (f : FsMgr) → liability t (count_call kindex f) ≡ liability t f
unfolding liability count_call
liability-count_call t kindex f = ground arith

pub liability-set_fs :
    (t user : ℕ) (fi : FsInfo) (f : FsMgr) → liability t (set_fs user fi f) ≡ liability t f
unfolding liability
liability-set_fs t user fi f = refl

-- The same, of an account that may be missing.
obligation-add_new :
    (start size : ℕ) (sprice pay manage : ℤ) (o : Option Settlement)
    → obligation (Settlement.add start size sprice pay manage (or_new_settlement o))
      ≡ obligation_or_zero o +ℤ pay +ℤ manage
obligation-add_new start size sprice pay manage none =
    grind (int_laws, obligation-add start size sprice pay manage new_settlement)
obligation-add_new start size sprice pay manage (some se) =
    obligation-add start size sprice pay manage se

pub liability-credit :
    (t : ℕ) (k : MultiKey) (v : ℤ) (f : FsMgr)
    → liability t (credit k v f) ≡ liability t f +ℤ (if k.token_index == t then v else pos 0)
unfolding liability credit
liability-credit t k v f =
    grind (int_laws, balances_in-insert t k (or_zero (lookup k f.balance) +ℤ v) f.balance)

pub liability-set_settlement :
    (t : ℕ) (k : MultiKey) (se : Settlement) (f : FsMgr)
    → liability t (set_settlement k se f)
      ≡ liability t f
        +ℤ (if k.token_index == t
            then obligation se -ℤ obligation_or_zero (lookup k f.pro_info)
            else pos 0)
unfolding liability
liability-set_settlement t k se f = grind (int_laws, accounts_in-insert t k se f.pro_info)

liability-book_order :
    (t kindex user pro start size token : ℕ) (sprice pay manage tax : ℤ) (f : FsMgr)
    → liability t (book_order kindex user pro start size token sprice pay manage tax f)
      ≡ liability t f
unfolding book_order
liability-book_order t kindex user pro start size token sprice pay manage tax f =
    let k = key pro token in
    let old = lookup k f.pro_info in
    let se = Settlement.add start size sprice pay manage (or_new_settlement old) in
    let f₁ = set_settlement k se f in
    let f₂ = credit (key f.foundation token) tax f₁ in
    let f₃ = credit (key user token) (pos 0 -ℤ (pay +ℤ manage +ℤ tax)) f₂ in
    liability-count_call t kindex f₃
    ∙ rw
        (
          liability-credit t (key user token) (pos 0 -ℤ (pay +ℤ manage +ℤ tax)) f₂,
          liability-credit t (key f.foundation token) tax f₁,
          liability-set_settlement t k se f,
        )
        (grind (int_laws, obligation-add_new start size sprice pay manage old))

-- `P` says that what is owed in token `t` is the sum `owed`.
abbrev Owes : (t : ℕ) (owed : ℤ) → FsMgr → Type 0
Owes t owed f = liability t f ≡ owed

module _ (t : ℕ) (owed : ℤ) where
  Keeps-meet_token : (token : ℕ) → Keeps (Owes t owed) (modify (meet_token token))
  Keeps-meet_token token = Keeps-modify _ (λ f h. liability-meet_token t token f ∙ h)

  Keeps-set_fs : (user : ℕ) (fi : FsInfo) → Keeps (Owes t owed) (modify (set_fs user fi))
  Keeps-set_fs user fi = Keeps-modify _ (λ f h. liability-set_fs t user fi f ∙ h)

  Keeps-count_call : (kindex : ℕ) → Keeps (Owes t owed) (modify (count_call kindex))
  Keeps-count_call kindex = Keeps-modify _ (λ f h. liability-count_call t kindex f ∙ h)

  Keeps-book_order :
      (kindex user pro start size token : ℕ) (sprice pay manage tax : ℤ)
      → Keeps
          (Owes t owed)
          (modify (book_order kindex user pro start size token sprice pay manage tax))
  Keeps-book_order kindex user pro start size token sprice pay manage tax =
      Keeps-modify _
        (λ f h. liability-book_order t kindex user pro start size token sprice pay manage tax f ∙ h)

  ruleset owes_rules =
      (keeps_rules, Keeps-meet_token, Keeps-set_fs, Keeps-count_call, Keeps-book_order)

  add_order-Owes :
      (caller : Address) (kindex user pro start end size nonce token : ℕ) (sprice : ℤ)
      → Keeps (Owes t owed) (add_order caller kindex user pro start end size nonce token sprice)
  unfolding add_order get_fs_info
  add_order-Owes caller kindex user pro start end size nonce token sprice =
      search owes_rules depth 40

-- `AddOrder` changes nothing of what the contract owes in any token, on success or on error.
pub liability-add_order :
    (t : ℕ) (caller : Address) (kindex user pro start end size nonce token : ℕ) (sprice : ℤ)
    (f : FsMgr)
    → liability t (add_order caller kindex user pro start end size nonce token sprice f).1
      ≡ liability t f
liability-add_order t caller kindex user pro start end size nonce token sprice f =
    (add_order-Owes t (liability t f) caller kindex user pro start end size nonce token sprice).at f
      refl
