-- ===== src/Base/Keeps.antt =====
-- Invariants of methods, one rule for each building block.
use mathlib.Core.Bool.{Bool, true, false}
use mathlib.Core.Option.{Option, none, some}
use mefs_go_settlement.Base.Tests.{if◌then◌else◌}
use mefs_go_settlement.Base.Outcome.{
  Result, ok, err, panic, Error, M, pure, throw, gets, or_throw, or_crash, read_or_throw,
  read_or_crash, resume, ◌>>=◌, ◌>>◌, throw_if, modify, ignore,
}

-- Whatever `m` does, and with whatever result, a state of which `P` holds is followed by another.
pub record Keeps {S A : Type 0} (P : S → Type 0) (m : M S A) : Type 0 where
  pub at : (before : S) (held : P before) → P (m before).1

module _ {S A : Type 0} {P : S → Type 0} where
  keeps : {m : M S A} → ((before : S) → P before → P (m before).1) → Keeps P m
  keeps step = record { at = step }

  -- The early returns.
  pub Keeps-throw : (e : Error) → Keeps P (throw {A = A} e)
  unfolding throw
  Keeps-throw e = keeps λ q held. held

  pub Keeps-or_crash : (o : Option A) → Keeps P (or_crash o)
  unfolding or_crash
  Keeps-or_crash none = keeps λ q held. held
  Keeps-or_crash (some a) = keeps λ q held. held

  pub Keeps-read_or_crash : (f : S → Option A) → Keeps P (read_or_crash f)
  unfolding read_or_crash
  Keeps-read_or_crash f = keeps λ q. (Keeps-or_crash (f q)).at q

  pub Keeps-or_throw : (o : Option A) (e : Error) → Keeps P (or_throw o e)
  unfolding or_throw
  Keeps-or_throw none e = keeps λ q held. held
  Keeps-or_throw (some a) e = keeps λ q held. held

  pub Keeps-read_or_throw : (f : S → Option A) (e : Error) → Keeps P (read_or_throw f e)
  unfolding read_or_throw
  Keeps-read_or_throw f e = keeps λ q. (Keeps-or_throw (f q) e).at q

  -- The values.
  pub Keeps-gets : (view : S → A) → Keeps P (gets view)
  unfolding gets
  Keeps-gets view = keeps λ q held. held

  pub Keeps-pure : (a : A) → Keeps P (pure a)
  unfolding pure
  Keeps-pure a = keeps λ q held. held

  pub Keeps-if : (b : Bool) (m n : M S A) → Keeps P m → Keeps P n → Keeps P (if b then m else n)
  Keeps-if true m n km kn = km
  Keeps-if false m n km kn = kn

module _ {S : Type 0} {P : S → Type 0} where
  pub Keeps-throw_if : (b : Bool) (e : Error) → Keeps P (throw_if b e)
  unfolding throw_if
  Keeps-throw_if b e = keeps λ q held. held

  pub Keeps-modify : (f : S → S) → ((s : S) → P s → P (f s)) → Keeps P (modify f)
  unfolding modify
  Keeps-modify f step = keeps step

  pub Keeps-ignore : (m : M S (Unit {0})) → Keeps P m → Keeps P (ignore m)
  unfolding ignore
  Keeps-ignore m k = keeps λ q. k.at q

-- One method after another.
module _ {S A B : Type 0} {P : S → Type 0} (m : M S A) (first : Keeps P m) where
  go_on : (r : Result A) (f : A → M S B) → ((a : A) → Keeps P (f a)) → Keeps P (resume r f)
  unfolding resume
  go_on panic f next = keeps λ q held. held
  go_on (err e) f next = keeps λ q held. held
  go_on (ok a) f next = keeps λ q. (next a).at q

  Keeps-after :
      (f : A → M S B) → ((a : A) → Keeps P (f a)) → Keeps P (λ s. resume (m s).0 f (m s).1)
  Keeps-after f next = keeps λ q held. (go_on (m q).0 f next).at (m q).1 (first.at q held)

module _ {S A B : Type 0} {P : S → Type 0} where
  pub Keeps-then : (m : M S A) (k : M S B) → Keeps P m → Keeps P k → Keeps P (m >> k)
  unfolding ◌>>◌
  Keeps-then m k first next = keeps λ q. (Keeps-after m first (λ _. k) (λ _. next)).at q

  pub Keeps-bind :
      (call : M S A) (rest : A → M S B)
      → Keeps P call
      → ((a : A) → Keeps P (rest a))
      → Keeps P (call >>= rest)
  unfolding ◌>>=◌
  Keeps-bind call rest first next = keeps λ q. (Keeps-after call first rest next).at q

pub ruleset keeps_rules = (
  Keeps-bind, Keeps-then, Keeps-if, Keeps-ignore, Keeps-throw_if, Keeps-gets, Keeps-pure,
  Keeps-throw, Keeps-or_throw, Keeps-or_crash, Keeps-read_or_throw, Keeps-read_or_crash,
)
