-- ===== src/Fs/Promise.antt =====
-- What a keeper gets of the profit in one token (server/contract/fs.go, lines 657 to 692).
pub mod Tokens
use mefs_go_settlement.Base.{
  ℕ, true, false, Bool, Bool-cases, ◌<◌, ltb, leb, ◌==◌, sub64, ◌≡◌, ◌≢◌, refl, sym, ap, ◌∙◌, arith,
  if◌then◌else◌, List, [], ◌∷◌, none, some, Option-cases, inl, inr, ◌⊎◌, ℤ, pos, ◌+ℤ◌, ◌-ℤ◌, ◌*ℤ◌,
  ◌/ℤ◌, int_laws, nat_eq, lookup, lookup-insert, lookup-insert_self, or_zero, ok, err, err_empty,
  methods, resume, Result,
}
use mefs_go_settlement.Keys.{key, multi_key_eq, multi_key_beq_iff}
use mefs_go_settlement.Pledge.Shares.{Absent, Once}
use mefs_go_settlement.Fs.{FsMgr}
use mefs_go_settlement.Fs.Orders.{credit}
use mefs_go_settlement.Fs.Funds.{
  get_balance, with_profit, locked, pay_keeper, pay_keepers, share_token, share_tokens,
  share_profit,
}

module _ (k t : ℕ) where
  -- The balance of the keeper in the token.
  abbrev pub balance : FsMgr → ℤ
  balance f = or_zero (lookup (key k t) f.balance)

  -- What another payment leaves alone: all that the keeper's part in the token is computed from.
  pub record Alike (f g : FsMgr) : Type 0 where
    pub keepers : g.keepers ≡ f.keepers
    pub total : g.total_count ≡ f.total_count
    pub count : (kc : ℕ) → lookup k f.count ≡ some kc → lookup k g.count ≡ some kc

  pay_keeper-Alike :
      (token : ℕ) (per : ℤ) (kindex : ℕ) (f : FsMgr) → Alike f (pay_keeper token per kindex f)
  unfolding pay_keeper credit
  pay_keeper-Alike token per kindex f = elim (Option-cases (lookup kindex f.count)) [
    | inl e ↦
        rw (e, pay_keeper)
          (record {
            keepers = refl;
            total = refl;
            count = λ kc h. ground (arith, lookup-insert kindex k 1 f.count, h, e);
          })
    | inr (n, e) ↦ rw (e, pay_keeper) (record { keepers = refl; total = refl; count = λ kc h. h })
  ]

  Alike-trans : (f g h : FsMgr) → Alike f g → Alike g h → Alike f h
  Alike-trans f g h a b = record {
    keepers = b.keepers ∙ a.keepers;
    total = b.total ∙ a.total;
    count = λ kc at. b.count kc (a.count kc at);
  }

  pub pay_keepers-Alike :
      (token : ℕ) (per : ℤ) (ks : List ℕ) (f : FsMgr) → Alike f (pay_keepers token per ks f)
  unfolding pay_keepers
  pay_keepers-Alike token per [] f = record { keepers = refl; total = refl; count = λ kc h. h }
  pay_keepers-Alike token per (j ∷ ks) f =
      Alike-trans f (pay_keeper token per j f) _ (pay_keeper-Alike token per j f)
        (pay_keepers-Alike token per ks (pay_keeper token per j f))

  -- ## One token

  balance-other :
      (token : ℕ) (per : ℤ) (j : ℕ) (f : FsMgr)
      → (j ≢ k) ⊎ (token ≢ t)
      → balance (pay_keeper token per j f) ≡ balance f
  unfolding pay_keeper credit
  balance-other token per j f other = elim (Option-cases (lookup j f.count)) [
    | inl e ↦ rw (e, pay_keeper) refl
    | inr (n, e) ↦
        rw (e, pay_keeper)
          (ground (
            arith,
            other,
            lookup-insert (key j token) (key k t)
                (or_zero (lookup (key j token) f.balance) +ℤ per *ℤ pos n) f.balance,
          ))
  ]

  balance-paid :
      (per : ℤ) (kc : ℕ) (f : FsMgr)
      → lookup k f.count ≡ some kc
      → balance (pay_keeper t per k f) ≡ balance f +ℤ per *ℤ pos kc
  unfolding pay_keeper credit
  balance-paid per kc f counted =
      rw (counted, pay_keeper)
        (rw (lookup-insert_self (key k t) (balance f +ℤ per *ℤ pos kc) f.balance) refl)

  balance-Absent :
      (token : ℕ) (per : ℤ) (ks : List ℕ) (f : FsMgr)
      → Absent k ks
      → balance (pay_keepers token per ks f) ≡ balance f
  unfolding pay_keepers
  balance-Absent token per [] f absent = refl
  balance-Absent token per (j ∷ ks) f absent =
      balance-Absent token per ks (pay_keeper token per j f) absent.1
      ∙ balance-other token per j f (inl absent.0)

  pub balance-Once :
      (per : ℤ) (kc : ℕ) (ks : List ℕ) (f : FsMgr)
      → Once k ks
      → lookup k f.count ≡ some kc
      → balance (pay_keepers t per ks f) ≡ balance f +ℤ per *ℤ pos kc
  unfolding pay_keepers
  balance-Once per kc [] f once counted = absurd once
  balance-Once per kc (j ∷ ks) f (inl (same, absent)) counted =
      rw same
        (balance-Absent t per ks (pay_keeper t per k f) absent ∙ balance-paid per kc f counted)
  balance-Once per kc (j ∷ ks) f (inr (other, once)) counted =
      balance-Once per kc ks (pay_keeper t per j f) once
        ((pay_keeper-Alike t per j f).count kc counted)
      ∙ ap (λ b. b +ℤ per *ℤ pos kc) (balance-other t per j f (inl other))

  -- ## Another token

  abbrev pub profit : FsMgr → ℤ
  profit f = or_zero (lookup t f.t_acc)

  pub other_token :
      (token : ℕ) (per : ℤ) (ks : List ℕ) (f : FsMgr)
      → token ≢ t
      → (balance (pay_keepers token per ks f) ≡ balance f)
        × (profit (pay_keepers token per ks f) ≡ profit f)
  unfolding pay_keepers
  other_token token per [] f other = (refl, refl)
  other_token token per (j ∷ ks) f other =
      let f' = pay_keeper token per j f in
      let rest = other_token token per ks f' other in
      (rest.0 ∙ balance-other token per j f (inr other), rest.1 ∙ same_profit)
    where
      same_profit : profit (pay_keeper token per j f) ≡ profit f
      same_profit =
          unfold pay_keeper credit in
          elim (Option-cases (lookup j f.count)) [
            | inl e ↦ rw (e, pay_keeper) refl
            | inr (n, e) ↦
                rw (e, pay_keeper)
                  (ground (
                    arith,
                    other,
                    lookup-insert token t (or_zero (lookup token f.t_acc) -ℤ per *ℤ pos n) f.t_acc,
                  ))
          ]
