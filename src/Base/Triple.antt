-- ===== src/Base/Triple.antt =====
-- What holds after a method, by its result.
use mathlib.Core.Path.{◌≡◌, refl, subst, sym}
use mathlib.Core.Bool.{Bool, true, false}
use mathlib.Core.Option.{Option, none, some}
use mefs_go_settlement.Base.Tests.{if◌then◌else◌}
use mefs_go_settlement.Base.Outcome.{
  Result, ok, err, panic, Error, M, pure, or_crash, throw_if, resume, ◌>>=◌, ◌>>◌,
}

-- `Q` of the value and the state, or `E` of the state that an error or a panic leaves.
abbrev pub After : {S A : Type 0} (Q : A → S → Type 0) (E : S → Type 0) → Result A → S → Type 0
After Q E (ok a) s = Q a s
After Q E (err e) s = E s
After Q E panic s = E s

pub record Triple {S A : Type 0} (P : S → Type 0) (m : M S A) (Q : A → S → Type 0) (E : S → Type 0)
    : Type 0 where
  pub at : (s : S) → P s → After Q E (m s).0 (m s).1

module _ {S A B : Type 0} {E : S → Type 0} {Q : A → S → Type 0} {R : B → S → Type 0} where
  resume-After :
      (r : Result A) (f : A → M S B) (s : S)
      → After Q E r s
      → ((a : A) → Triple (Q a) (f a) R E)
      → After R E (resume r f s).0 (resume r f s).1
  unfolding resume
  resume-After (ok a) f s h next = (next a).at s h
  resume-After (err e) f s h next = h
  resume-After panic f s h next = h

  pub Triple-bind :
      {P : S → Type 0} (m : M S A) (f : A → M S B)
      → Triple P m Q E
      → ((a : A) → Triple (Q a) (f a) R E)
      → Triple P (m >>= f) R E
  unfolding ◌>>=◌
  Triple-bind m f first next = record {
    at = λ s h. resume-After (m s).0 f (m s).1 (first.at s h) next;
  }

module _ {S A B : Type 0} {P E I : S → Type 0} {R : B → S → Type 0} where
  pub Triple-then :
      (m : M S A) (k : M S B) → Triple P m (λ _ s. I s) E → Triple I k R E → Triple P (m >> k) R E
  unfolding ◌>>◌
  Triple-then m k first next = record {
    at = λ s h. resume-After (m s).0 (λ _. k) (m s).1 (first.at s h) (λ _. next);
  }

module _ {S A : Type 0} {P E : S → Type 0} {Q : A → S → Type 0} where
  -- A value that is known.
  pub Triple-known :
      {B : Type 0} (a b : B) (m : B → M S A)
      → Triple P (m b) Q E
      → Triple (λ s. P s × (a ≡ b)) (m a) Q E
  Triple-known a b m t = record {
    at = λ s (h, e). subst (λ x. After Q E (m x s).0 (m x s).1) (sym e) (t.at s h);
  }

pub Triple-throw_if :
    {S : Type 0} {P : S → Type 0} (c : Bool) (e : Error) → Triple P (throw_if c e) (λ _ s. P s) P
unfolding throw_if
Triple-throw_if true e = record { at = λ s h. h }
Triple-throw_if false e = record { at = λ s h. h }

module _ {S A : Type 0} (E E' : S → Type 0) (Q : A → S → Type 0) where
  weaken-After : (r : Result A) (s : S) → (E s → E' s) → After Q E r s → After Q E' r s
  weaken-After (ok a) s w h = h
  weaken-After (err e) s w h = w h
  weaken-After panic s w h = w h

pub Triple-weaken :
    {S A : Type 0} {P E E' : S → Type 0} {Q : A → S → Type 0} (m : M S A)
    → ((s : S) → E s → E' s)
    → Triple P m Q E
    → Triple P m Q E'
Triple-weaken {E = E} {E' = E'} {Q = Q} m w t = record {
  at = λ s h. weaken-After E E' Q (m s).0 (m s).1 (w (m s).1) (t.at s h);
}

module _ {S A : Type 0} (I : S → Type 0) where
  any-After : (r : Result A) (s : S) → I s → After (λ _ q. I q) I r s
  any-After (ok a) s h = h
  any-After (err e) s h = h
  any-After panic s h = h

-- What holds whatever the result.
pub Triple-any :
    {S A : Type 0} {P I : S → Type 0} (m : M S A)
    → ((s : S) → P s → I (m s).1)
    → Triple P m (λ _ s. I s) I
Triple-any {I = I} m k = record { at = λ s h. any-After I (m s).0 (m s).1 (k s h) }

module _ {S : Type 0} (I : S → Type 0) where
  of-After : {A : Type 0} (r : Result A) (s : S) → After (λ _ q. I q) I r s → I s
  of-After (ok a) s h = h
  of-After (err e) s h = h
  of-After panic s h = h

  pub Triple-always :
      {A : Type 0} {P : S → Type 0} (m : M S A)
      → Triple P m (λ _ s. I s) I
      → (s : S) → P s
      → I (m s).1
  Triple-always m t s h = of-After (m s).0 (m s).1 (t.at s h)

pub Triple-pure : {S A : Type 0} {P E : S → Type 0} (a : A) → Triple P (pure a) (λ _ s. P s) E
unfolding pure
Triple-pure a = record { at = λ s h. h }

module _ {S A : Type 0} {P E : S → Type 0} {Q : A → S → Type 0} where
  pub Triple-if :
      (c : Bool) (m n : M S A) → Triple P m Q E → Triple P n Q E → Triple P (if c then m else n) Q E
  Triple-if true m n tm tn = tm
  Triple-if false m n tm tn = tn

  -- Each branch with what its test says.
  pub Triple-if_known :
      (c : Bool) (m n : M S A)
      → (c ≡ true → Triple P m Q E)
      → (c ≡ false → Triple P n Q E)
      → Triple P (if c then m else n) Q E
  Triple-if_known true m n tm tn = tm refl
  Triple-if_known false m n tm tn = tn refl

-- From a stronger condition.
pub Triple-when :
    {S A : Type 0} {P P' E : S → Type 0} {Q : A → S → Type 0} (m : M S A)
    → ((s : S) → P' s → P s)
    → Triple P m Q E
    → Triple P' m Q E
Triple-when m w t = record { at = λ s h. t.at s (w s h) }

-- With what only the condition tells.
pub Triple-given :
    {S A : Type 0} {P E : S → Type 0} {Q : A → S → Type 0} (m : M S A)
    → ((s : S) → P s → Triple P m Q E)
    → Triple P m Q E
Triple-given m t = record { at = λ s h. (t s h).at s h }

module _ {S A : Type 0} {P E : S → Type 0} {Q : A → S → Type 0} (leave : (s : S) → P s → E s) where
  -- After a check that went well.
  pub Triple-guard :
      (c : Bool) (e : Error) (k : M S A)
      → (c ≡ false → Triple P k Q E)
      → Triple P (throw_if c e >> k) Q E
  unfolding throw_if ◌>>◌ resume
  Triple-guard true e k t = record { at = λ s h. leave s h }
  Triple-guard false e k t = record { at = λ s h. (t refl).at s h }

  pub Triple-or_crash :
      {B : Type 0} (o : Option B) (k : B → M S A)
      → ((a : B) → o ≡ some a → Triple P (k a) Q E)
      → Triple P (or_crash o >>= k) Q E
  unfolding or_crash ◌>>=◌ resume
  Triple-or_crash none k t = record { at = λ s h. leave s h }
  Triple-or_crash (some a) k t = record { at = λ s h. (t a refl).at s h }

module _ {S A : Type 0} (E : S → Type 0) (Q Q' : A → S → Type 0) where
  so-After : (r : Result A) (s : S) → ((a : A) → Q a s → Q' a s) → After Q E r s → After Q' E r s
  so-After (ok a) s w h = w a h
  so-After (err e) s w h = h
  so-After panic s w h = h

  -- To a weaker result.
  pub Triple-so :
      {P : S → Type 0} (m : M S A)
      → ((a : A) (s : S) → Q a s → Q' a s)
      → Triple P m Q E
      → Triple P m Q' E
  Triple-so m w t = record {
    at = λ s h. so-After (m s).0 (m s).1 (λ a q. w a (m s).1 q) (t.at s h);
  }

module _ {S : Type 0} (I E : S → Type 0) where
  ok-After : {A : Type 0} (r : Result A) (a : A) (s : S) → r ≡ ok a → After (λ _ q. I q) E r s → I s
  ok-After (ok x) a s e h = h
  ok-After (err x) a s e h = absurd (cc e)
  ok-After panic a s e h = absurd (cc e)

  -- What holds when the method succeeds.
  pub Triple-ok :
      {A : Type 0} {P : S → Type 0} (m : M S A) (a : A)
      → Triple P m (λ _ s. I s) E
      → (s : S) → P s
      → (m s).0 ≡ ok a
      → I (m s).1
  Triple-ok m a t s h e = ok-After (m s).0 a (m s).1 e (t.at s h)
