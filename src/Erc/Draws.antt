-- ===== src/Erc/Draws.antt =====
-- `TransferFrom` on a token and on the abstract ledger (server/contract/erc20.go, lines 119 to 162).
use mefs_go_settlement.Base.{
  ◌==◌, ◌≡◌, ◌≢◌, sym, ap, ◌∙◌, arith, if◌then◌else◌, false, ◌&&◌, none, ℤ, pos, ◌-ℤ◌, leb_ℤ,
  int_laws, nat_eq, lookup, lookup-insert, methods, Option-cases, Bool-cases, inl, inr, ok, ◌≤ℤ◌,
}
use mefs_go_settlement.Utils.Key.{Address}
use mefs_go_settlement.Erc.{ErcToken, TwoKey, two_key_eq, balance_of, allowance, transfer_from}
use mefs_go_settlement.Erc.Balances.{moved}
use mefs_go_settlement.Erc.Supply.{transfers_from}
use mefs_go_settlement.Erc.Balances.{transfer_from_lem}
use mefs_go_settlement.Erc.Ledger.{Ledger, on_ledger}
use mefs_go_settlement.Erc.Shows.{Shows}

module _ (caller from to : Address) (value : ℤ) (e : ErcToken) where
  abbrev drawn : ErcToken
  drawn = (transfer_from caller from to value e).1

  abbrev right : TwoKey
  right = record { owner = from; spender = caller }

  draw_unknown : lookup from e.money ≡ none → drawn ≡ e
  unfolding transfer_from methods
  draw_unknown n = ground (arith, n)

  draw_unapproved : lookup right e.allowed ≡ none → drawn ≡ e
  unfolding transfer_from methods
  draw_unapproved n = ground (arith, n)

  draw_refused :
      (leb_ℤ (pos 0) value
          && leb_ℤ value (balance_of from e)
          && leb_ℤ value (allowance from caller e))
        ≡ false
      → drawn ≡ e
  unfolding transfer_from balance_of allowance methods
  draw_refused h = grind (int_laws, h)

  draw_ok :
      lookup from e.money ≢ none
      → lookup right e.allowed ≢ none
      → pos 0 ≤ℤ value
      → value ≤ℤ balance_of from e
      → value ≤ℤ allowance from caller e
      → (transfer_from caller from to value e).0 ≡ ok tt
  unfolding transfer_from balance_of allowance methods
  draw_ok known approved low enough granted = grind int_laws

  draw_keeps : (drawn.admin ≡ e.admin) × (drawn.total_supply ≡ e.total_supply)
  unfolding transfer_from methods
  draw_keeps = (ground arith, ground arith)

  draw_account : lookup e.admin e.money ≢ none → lookup e.admin drawn.money ≢ none
  unfolding transfer_from methods
  draw_account h = λ n. grind (int_laws, lookup-insert, h, n)

  -- Nothing is drawn from what is not there.
  Shows-nothing :
      (l : Ledger)
      → value ≡ pos 0
      → Shows l e
      → Shows
          (record l {
            money = λ a. moved from to value a (l.money a);
            allowed =
                λ o s. if from == o && caller == s then l.allowed o s -ℤ value else l.allowed o s;
          })
          e
  Shows-nothing l z h = record {
    admin = h.admin;
    supply = h.supply;
    money = λ a. grind (int_laws, z, h.money a);
    allowed = λ o s. grind (int_laws, z, h.allowed o s);
    account = h.account;
  }

  Shows-drawn :
      (l : Ledger)
      → (transfer_from caller from to value e).0 ≡ ok tt
      → Shows l e
      → Shows
          (record l {
            money = λ a. moved from to value a (l.money a);
            allowed =
                λ o s. if from == o && caller == s then l.allowed o s -ℤ value else l.allowed o s;
          })
          drawn
  Shows-drawn l done h = record {
    admin = h.admin ∙ sym draw_keeps.0;
    supply = h.supply ∙ sym draw_keeps.1;
    money = λ a.
        ap (moved from to value a) (h.money a)
        ∙ sym (transfer_from_lem caller from to a caller value e done).3;
    allowed = λ o s.
        ap (λ x. if from == o && caller == s then x -ℤ value else x) (h.allowed o s)
        ∙ sym (transfer_from_lem caller from to o s value e done).4;
    account = rw draw_keeps.0 (draw_account h.account);
  }

  pub draw-Shows :
      (l : Ledger) → Shows l e → Shows (on_ledger (transfers_from caller from to value) l) drawn
  draw-Shows l h =
      elim (Bool-cases (
        leb_ℤ (pos 0) value && leb_ℤ value (l.money from) && leb_ℤ value (l.allowed from caller))) [
          | inl c ↦
              let low : pos 0 ≤ℤ value = grind (int_laws, c) in
              let enough : value ≤ℤ balance_of from e = grind (int_laws, c, h.money from) in
              let granted : value ≤ℤ allowance from caller e =
                grind (int_laws, c, h.allowed from caller) in
              rw c (elim (Option-cases (lookup from e.money)) [
                | inl n ↦ rw (draw_unknown n) (Shows-nothing l (no_money low enough n) h)
                | inr (v, known) ↦ elim (Option-cases (lookup right e.allowed)) [
                  | inl n ↦ rw (draw_unapproved n) (Shows-nothing l (no_right low granted n) h)
                  | inr (x, approved) ↦
                      Shows-drawn l
                        (draw_ok (λ n. ground (arith, n, known)) (λ n. ground (arith, n, approved))
                          low enough granted)
                        h
                ]
              ])
          | inr c ↦ rw (c, draw_refused (rw (sym (h.money from), sym (h.allowed from caller)) c)) h
        ]
    where
      no_money :
          pos 0 ≤ℤ value → value ≤ℤ balance_of from e → lookup from e.money ≡ none → value ≡ pos 0
      no_money low enough n = unfold balance_of in grind (int_laws, low, enough, n)

      no_right :
          pos 0 ≤ℤ value
          → value ≤ℤ allowance from caller e
          → lookup right e.allowed ≡ none
          → value ≡ pos 0
      no_right low granted n = unfold allowance in grind (int_laws, low, granted, n)
