-- ===== src/Base/Outcome.antt =====
-- A method of a contract: the state it leaves, and a value, an error or a Go panic. What was
-- written before an error or a panic stays written.
use mathlib.Core.Path.{◌≡◌, refl}
use mathlib.Core.Logic.{◌≢◌}
use mathlib.Core.Bool.{Bool}
use mathlib.Core.Option.{Option, none, some}
use mefs_go_settlement.Base.Tests.{if◌then◌else◌}

-- The error values of server/contract/common.go and server/impl/node/common.go, and that of a library.
pub data Error : Type 0 where
  err_res err_input err_empty err_exist err_value err_no_such_addr err_mis_type : Error
  err_role_type err_balance_not_enough err_permission err_nonce : Error
  node_err_res node_err_nonce library_error : Error

pub data Result (A : Type 0) : Type 0 where
  panic : Result A
  err : (e : Error) → Result A
  ok : (value : A) → Result A

abbrev pub M : Type 0 → Type 0 → Type 0
M S A = S → Result A × S

module _ {S A : Type 0} where
  unfoldable pub pure : A → M S A
  pure a s = (ok a, s)

  unfoldable pub throw : Error → M S A
  throw e s = (err e, s)

  unfoldable pub crash : M S A
  crash s = (panic, s)

  unfoldable pub gets : (S → A) → M S A
  gets f s = (ok (f s), s)

  -- The second result of a map lookup: an early return where the key is missing.
  unfoldable pub or_throw : Option A → Error → M S A
  or_throw none e s = (err e, s)
  or_throw (some a) e s = (ok a, s)

  -- A nil dereference or an index out of range.
  unfoldable pub or_crash : Option A → M S A
  or_crash none s = (panic, s)
  or_crash (some a) s = (ok a, s)

  -- The same of a value that is read from the state.
  unfoldable pub read_or_throw : (S → Option A) → Error → M S A
  unfolding or_throw
  read_or_throw f e s = or_throw (f s) e s

  unfoldable pub read_or_crash : (S → Option A) → M S A
  unfolding or_crash
  read_or_crash f s = or_crash (f s) s

-- What is done after a call that ended in `r`: nothing, if that is an error or a panic.
unfoldable pub resume : {S A B : Type 0} → Result A → (A → M S B) → M S B
resume (ok a) f s = f a s
resume (err e) f s = (err e, s)
resume panic f s = (panic, s)

infixl 5 ◌>>=◌ ◌>>◌
unfoldable pub ◌>>=◌ : {S A B : Type 0} → M S A → (A → M S B) → M S B
unfolding resume
◌>>=◌ m f s = let (r, s') = m s in resume r f s'

unfoldable pub ◌>>◌ : {S A B : Type 0} → M S A → M S B → M S B
unfolding resume
◌>>◌ m k s = let (r, s') = m s in resume r (λ _. k) s'

module _ {S : Type 0} where
  unfoldable pub throw_if : Bool → Error → M S (Unit {0})
  throw_if c e s = (if c then err e else ok tt, s)

  unfoldable pub modify : (S → S) → M S (Unit {0})
  modify f s = (ok tt, f s)

forget : Result (Unit {0}) → Result (Unit {0})
forget panic = panic
forget _ = ok tt

-- A call whose error the source drops.
unfoldable pub ignore : {S : Type 0} → M S (Unit {0}) → M S (Unit {0})
unfolding forget
ignore m s = let (r, s') = m s in (forget r, s')

-- Opens every building block of a method.
unfoldable pub methods : Unit {0}
unfolding pure throw crash gets or_throw or_crash read_or_throw read_or_crash ◌>>=◌ ◌>>◌ throw_if
    modify ignore
methods = tt

-- What comes after a call whose error is dropped.
module _ {S B : Type 0} (k : M S B) where
  after_forget :
      (r : Result (Unit {0})) (s : S) → r ≢ panic → (resume (forget r) (λ _. k) s).1 ≡ (k s).1
  unfolding resume forget
  after_forget panic s h = absurd (h refl)
  after_forget (err e) s h = refl
  after_forget (ok a) s h = refl

  pub then-ignore :
      (m : M S (Unit {0})) (s : S) → (m s).0 ≢ panic → ((ignore m >> k) s).1 ≡ (k (m s).1).1
  unfolding ignore ◌>>◌
  then-ignore m s h = after_forget (m s).0 (m s).1 h
