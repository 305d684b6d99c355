-- ===== src/Pledge/Receipts.antt =====
-- Money that is sent to the pool from outside, as the rewards that `AddOrder` of server/contract/role.go
-- issues.
use mefs_go_settlement.Base.{
  ℕ, ◌==◌, ◌≡◌, ◌≢◌, arith, subst, List, ℤ, pos, ◌≤ℤ◌, int_laws, Bool-cases, inl, inr, ok, methods,
}
use mefs_go_settlement.Base.Triple.{Triple, Triple-ok}
use mefs_go_settlement.Utils.Key.{Address}
use mefs_go_settlement.Erc
use mefs_go_settlement.Erc.{ErcToken, balance_of, transfer}
use mefs_go_settlement.Erc.Balances.{balance_of-transfer}
use mefs_go_settlement.Pledge.{PledgeMgr}
use mefs_go_settlement.Pledge.Held.{At, Anything, call_token-At}
use mefs_go_settlement.Pledge.Sound.{Sound}
use mefs_go_settlement.Pledge.Solvency.{IsSolvent}
use mefs_go_settlement.World.{World, send_balance}

-- More money does no harm.
pub Sound-grown :
    (ps : List ℕ) (ts : List Address) (b b' : Address → ℤ) (p : PledgeMgr)
    → Sound ps ts b p
    → ((a : Address) → b a ≤ℤ b' a)
    → Sound ps ts b' p
Sound-grown ps ts b b' p h grown = record {
  tokens = h.tokens;
  whole = h.whole;
  nonneg = h.nonneg;
  books = h.books;
  listed = h.listed;
  backed = λ j ti a known at. grind (int_laws, h.backed j ti a known at, grown a);
}

Sound-more :
    (ps : List ℕ) (ts : List Address) (t : Address) (b b' : Address → ℤ) (p : PledgeMgr)
    → Sound ps ts b p
    → ((a : Address) → a ≢ t → b' a ≡ b a)
    → b t ≤ℤ b' t
    → Sound ps ts b' p
Sound-more ps ts t b b' p h same more = Sound-grown ps ts b b' p h grown
  where
    grown : (a : Address) → b a ≤ℤ b' a
    grown a = elim (Bool-cases (a == t)) [
      | inl e ↦ let here : t ≡ a = ground (arith, e) in subst (λ x. b x ≤ℤ b' x) here more
      | inr e ↦ rw (same a (λ z. ground (arith, e, z))) (omega arith)
    ]

nonnegative :
    (from to : Address) (money : ℤ) (e : ErcToken)
    → (transfer from to money e).0 ≡ ok tt
    → pos 0 ≤ℤ money
unfolding transfer methods
nonnegative from to money e done = grind (int_laws, done)

sent-At :
    (self t from : Address) (money : ℤ) (ps : List ℕ) (ts : List Address)
    → from ≢ self
    → Triple
        (At self (Sound ps ts))
        (send_balance t from self money)
        (λ _ w. At self (Sound ps ts) w)
        (Anything self)
unfolding send_balance
sent-At self t from money ps ts other =
    call_token-At self t (Erc.transfer from self money) (λ old new. old ≤ℤ new)
      (λ e done. grind (
        int_laws,
        balance_of-transfer from self self money e done,
        nonnegative from self money e done,
      ))
      (λ b b' p h same more. Sound-more ps ts t b b' p h same more)

-- A solvent pool that another address sends money to, in any token, is solvent afterwards.
pub sent-IsSolvent :
    (self t from : Address) (money : ℤ) (ps : List ℕ) (ts : List Address) (w : World)
    → from ≢ self
    → IsSolvent self ps ts w
    → (send_balance t from self money w).0 ≡ ok tt
    → IsSolvent self ps ts (send_balance t from self money w).1
sent-IsSolvent self t from money ps ts w other h done =
    Triple-ok (IsSolvent self ps ts) (Anything self) (send_balance t from self money) tt
      (sent-At self t from money ps ts other) w h done
