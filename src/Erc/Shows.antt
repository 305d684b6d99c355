-- ===== src/Erc/Shows.antt =====
-- A token that shows what is in an abstract ledger, and its Transfer (server/contract/erc20.go).
use mefs_go_settlement.Base.{
  ◌≡◌, ◌≢◌, refl, sym, ap, ◌∙◌, arith, false, ◌&&◌, none, ℤ, pos, leb_ℤ, int_laws, nat_eq, lookup,
  lookup-insert, methods, Option-cases, Bool-cases, inl, inr, ◌≤ℤ◌, or_zero,
}
use mefs_go_settlement.Utils.Key.{Address}
use mefs_go_settlement.Erc.{ErcToken, two_key_eq, balance_of, allowance, transfer}
use mefs_go_settlement.Erc.Balances.{moved}
use mefs_go_settlement.Erc.Balances.{balance_of-transfer, transfer_ok}
use mefs_go_settlement.Erc.Ledger.{Ledger, pay}

-- The token shows what is in the ledger. Its admin has an account.
pub record Shows (l : Ledger) (e : ErcToken) : Type 0 where
  pub admin : l.admin ≡ e.admin
  pub supply : l.supply ≡ e.total_supply
  pub money : (a : Address) → l.money a ≡ balance_of a e
  pub allowed : (o s : Address) → l.allowed o s ≡ allowance o s e
  pub account : lookup e.admin e.money ≢ none

module _ (caller to : Address) (value : ℤ) (e : ErcToken) where
  abbrev sent : ErcToken
  sent = (transfer caller to value e).1

  transfer_keeps :
      (sent.admin ≡ e.admin) × (sent.total_supply ≡ e.total_supply) × (sent.allowed ≡ e.allowed)
  unfolding transfer methods
  transfer_keeps = (ground arith, ground arith, ground arith)

  transfer_account : lookup e.admin e.money ≢ none → lookup e.admin sent.money ≢ none
  unfolding transfer methods
  transfer_account h = λ n. grind (int_laws, lookup-insert, h, n)

  transfer_unknown : lookup caller e.money ≡ none → sent ≡ e
  unfolding transfer methods
  transfer_unknown n = ground (arith, n)

  moved_nothing :
      (a : Address) → value ≡ pos 0 → balance_of a e ≡ moved caller to value a (balance_of a e)
  moved_nothing a z = grind (int_laws, z)

  transfer_moves :
      (a : Address)
      → pos 0 ≤ℤ value
      → value ≤ℤ balance_of caller e
      → balance_of a sent ≡ moved caller to value a (balance_of a e)
  transfer_moves a low enough = elim (Option-cases (lookup caller e.money)) [
    | inl n ↦
        let nothing : balance_of caller e ≡ pos 0 = unfold balance_of in rw n refl in
        let zero_value : value ≡ pos 0 = grind (int_laws, low, enough, nothing) in
        ap (balance_of a) (transfer_unknown n) ∙ moved_nothing a zero_value
    | inr (v, s) ↦
        balance_of-transfer caller to a value e
          (transfer_ok caller to value e (λ n. ground (arith, n, s)) low enough)
  ]

  transfer_refused : (leb_ℤ (pos 0) value && leb_ℤ value (balance_of caller e)) ≡ false → sent ≡ e
  unfolding transfer balance_of methods
  transfer_refused h = grind (int_laws, h)

same_allowance :
    (o s : Address) (e f : ErcToken) → e.allowed ≡ f.allowed → allowance o s e ≡ allowance o s f
unfolding allowance
same_allowance o s e f q = ap (λ d. or_zero (lookup (record { owner = o; spender = s }) d)) q

pub pay-Shows :
    (caller to : Address) (value : ℤ) (l : Ledger) (e : ErcToken)
    → Shows l e
    → Shows (pay caller to value l) (transfer caller to value e).1
pay-Shows caller to value l e h =
    elim (Bool-cases (leb_ℤ (pos 0) value && leb_ℤ value (l.money caller))) [
      | inl c ↦
          let keeps = transfer_keeps caller to value e in
          let low : pos 0 ≤ℤ value = grind (int_laws, c) in
          let enough : value ≤ℤ balance_of caller e = grind (int_laws, c, h.money caller) in
          rw c (record {
            admin = h.admin ∙ sym keeps.0;
            supply = h.supply ∙ sym keeps.1;
            money = λ a.
                ap (moved caller to value a) (h.money a)
                ∙ sym (transfer_moves caller to value e a low enough);
            allowed = λ o s.
                h.allowed o s ∙ same_allowance o s e (transfer caller to value e).1 (sym keeps.2);
            account = rw keeps.0 (transfer_account caller to value e h.account);
          })
      | inr c ↦
          let refused = transfer_refused caller to value e (rw (sym (h.money caller)) c) in
          rw (c, refused) h
    ]
