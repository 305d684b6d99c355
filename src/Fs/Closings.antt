-- ===== src/Fs/Closings.antt =====
-- Orders that end move what is owed inside a group's storage contract, and change nothing of the sum
-- (server/contract/fs.go, lines 448 to 532 and 895 to 960).
use mefs_go_settlement.Base.{
  ℕ, ◌≡◌, ◌≢◌, refl, arith, sub64, none, some, ℤ, pos, ◌+ℤ◌, ◌*ℤ◌, ◌/ℤ◌, int_laws, Dict, nat_eq,
  lookup, insert, lookup-insert, lookup-insert_self, ◌∙◌, modify, methods, inl, inr, Option-cases,
}
use mefs_go_settlement.Base.Keeps.{Keeps, Keeps-modify, keeps_rules}
use mefs_go_settlement.Utils.Key.{Address}
use mefs_go_settlement.Keys.{MultiKey, key, multi_key_eq}
use mefs_go_settlement.Settlement
use mefs_go_settlement.Settlement.{Settlement, new_settlement}
use mefs_go_settlement.Fs.{FsMgr, FsInfo}
use mefs_go_settlement.Fs.Orders.{
  settle_end, sub_order, count_call, get_fs_info, set_settlement, set_fs,
}
use mefs_go_settlement.Fs.Liability.{obligation, liability, accounts_in-insert}
use mefs_go_settlement.Fs.Liability.{Served}
use mefs_go_settlement.Fs.Repairs.{set_repair, sub_repair}
use mefs_go_settlement.Fs.Books.{liability-count_call, liability-set_fs}

obligation-sub :
    (start end size : ℕ) (sprice : ℤ) (se : Settlement)
    → obligation (Settlement.sub start end size sprice se) ≡ obligation se
unfolding Settlement.sub
obligation-sub start end size sprice se = refl

-- `P` says that what is owed in token `t` is the sum `owed`, and that the provider is served.
abbrev OwesServed : (t : ℕ) (owed : ℤ) (pro token : ℕ) → FsMgr → Type 0
OwesServed t owed pro token f = (liability t f ≡ owed) × Served pro token f

settled_end : (k : MultiKey) (se : Settlement) (token : ℕ) (acc end_paid : ℤ) → FsMgr → FsMgr
settled_end k se token acc end_paid f =
    let f' = set_settlement k (record se { end_paid = se.end_paid +ℤ end_paid }) f in
    record f' { t_acc = insert token (acc +ℤ end_paid) f'.t_acc }

liability-settled_end :
    (t : ℕ) (k : MultiKey) (se old : Settlement) (acc end_paid : ℤ) (f : FsMgr)
    → lookup k f.pro_info ≡ some old
    → obligation se ≡ obligation old
    → lookup k.token_index f.t_acc ≡ some acc
    → liability t (settled_end k se k.token_index acc end_paid f) ≡ liability t f
unfolding liability settled_end
liability-settled_end t k se old acc end_paid f known same met = grind (
  int_laws,
  accounts_in-insert t k (record se { end_paid = se.end_paid +ℤ end_paid }) f.pro_info,
  lookup-insert k.token_index t (acc +ℤ end_paid) f.t_acc,
)

known-insert : (k : ℕ) (v : ℤ) (d : Dict ℕ ℤ) → lookup k (insert k v d) ≢ none
known-insert k v d e = cc (lookup-insert_self k v d)

settle_end-OwesServed :
    (t : ℕ) (owed : ℤ) (pro start end size token : ℕ) (sprice : ℤ)
    → Keeps (OwesServed t owed pro token) (settle_end pro start end size token sprice)
unfolding settle_end settled_end methods
settle_end-OwesServed t owed pro start end size token sprice = record { at = λ f h. kept f h }
  where
    kept :
        (f : FsMgr)
        → OwesServed t owed pro token f
        → OwesServed t owed pro token (settle_end pro start end size token sprice f).1
    kept f h = elim (Option-cases (lookup (key pro token) f.pro_info)) [
      | inl e ↦ rw e h
      | inr (se, e) ↦ elim (Option-cases (lookup token f.t_acc)) [
        | inl e' ↦ absurd (h.1 (λ none_at. cc) e')
        | inr (acc, e') ↦
            rw (e, e')
              (
                liability-settled_end t (key pro token) (Settlement.sub start end size sprice se) se
                      acc (sprice *ℤ pos (sub64 end start) /ℤ pos 100) f e
                      (obligation-sub start end size sprice se) e'
                    ∙ h.0,
                λ known. known-insert token _ f.t_acc,
              )
      ]
    ]

liability-set_repair :
    (t : ℕ) (fi : FsInfo) (f : FsMgr) → liability t (set_repair fi f) ≡ liability t f
unfolding liability
liability-set_repair t fi f = refl

module _ (t : ℕ) (owed : ℤ) (pro token : ℕ) where
  OwesServed-set_fs :
      (user : ℕ) (fi : FsInfo) → Keeps (OwesServed t owed pro token) (modify (set_fs user fi))
  OwesServed-set_fs user fi = Keeps-modify _ (λ f h. (liability-set_fs t user fi f ∙ h.0, h.1))

  OwesServed-set_repair :
      (fi : FsInfo) → Keeps (OwesServed t owed pro token) (modify (set_repair fi))
  OwesServed-set_repair fi = Keeps-modify _ (λ f h. (liability-set_repair t fi f ∙ h.0, h.1))

  OwesServed-count_call :
      (kindex : ℕ) → Keeps (OwesServed t owed pro token) (modify (count_call kindex))
  OwesServed-count_call kindex =
      Keeps-modify _
        (λ f h. (liability-count_call t kindex f ∙ h.0, unfold count_call in ground (arith, h.1)))

  ruleset served_rules = (
    keeps_rules, OwesServed-set_fs, OwesServed-set_repair, OwesServed-count_call,
    settle_end-OwesServed,
  )

  sub_order-OwesServed :
      (now : ℕ) (caller : Address) (kindex user start end size nonce : ℕ) (sprice : ℤ)
      → Keeps
          (OwesServed t owed pro token)
          (sub_order now caller kindex user pro start end size nonce token sprice)
  unfolding sub_order get_fs_info
  sub_order-OwesServed now caller kindex user start end size nonce sprice =
      search served_rules depth 40

  sub_repair-OwesServed :
      (now : ℕ) (caller : Address) (kindex lost start end size nonce : ℕ) (sprice : ℤ)
      → Keeps
          (OwesServed t owed pro token)
          (sub_repair now caller kindex lost pro start end size nonce token sprice)
  unfolding sub_repair
  sub_repair-OwesServed now caller kindex lost start end size nonce sprice =
      search served_rules depth 40

-- `SubOrder` changes nothing of what the contract owes in any token, on success or on error, where
-- the keepers' profit has an account in the order's token if the provider has one in it.
pub liability-sub_order :
    (t now : ℕ) (caller : Address) (kindex user pro start end size nonce token : ℕ) (sprice : ℤ)
    (f : FsMgr)
    → Served pro token f
    → liability t (sub_order now caller kindex user pro start end size nonce token sprice f).1
      ≡ liability t f
liability-sub_order t now caller kindex user pro start end size nonce token sprice f served =
    ((sub_order-OwesServed t (liability t f) pro token now caller kindex user start end size nonce
        sprice).at
      f (refl, served)).0

-- `SubRepair` changes nothing of what the contract owes in any token, on success or on error, where
-- the keepers' profit has an account in the order's token if the new provider has one in it.
pub liability-sub_repair :
    (t now : ℕ) (caller : Address) (kindex pro newpro start end size nonce token : ℕ) (sprice : ℤ)
    (f : FsMgr)
    → Served newpro token f
    → liability t (sub_repair now caller kindex pro newpro start end size nonce token sprice f).1
      ≡ liability t f
liability-sub_repair t now caller kindex pro newpro start end size nonce token sprice f served =
    ((sub_repair-OwesServed t (liability t f) newpro token now caller kindex pro start end size
        nonce sprice).at
      f (refl, served)).0
