-- ===== src/Base/Total.antt =====
-- What a method does, and that it does: it returns a value.
use mathlib.Core.Path.{◌≡◌, refl, sym, ap, subst, ◌∙◌}
use mathlib.Core.Bool.{Bool, false}
use mefs_go_settlement.Base.Outcome.{Result, ok, Error, M, throw_if, resume, ◌>>=◌, ◌>>◌}
use mefs_go_settlement.Base.Triple.{After, Triple}

-- From a state of which `P` holds the method returns a value, and `Q` holds of that and of the state.
pub record Total {S A : Type 0} (P : S → Type 0) (m : M S A) (Q : A → S → Type 0) : Type 0 where
  pub at : (s : S) → P s → (a : A) × ((m s).0 ≡ ok a) × Q a (m s).1

module _ {S A B : Type 0} where
  bind_ok : (m : M S A) (f : A → M S B) (s : S) (a : A) → (m s).0 ≡ ok a → (m >>= f) s ≡ f a (m s).1
  unfolding ◌>>=◌ resume
  bind_ok m f s a e = rw e refl

  then_ok : (m : M S A) (k : M S B) (s : S) (a : A) → (m s).0 ≡ ok a → (m >> k) s ≡ k (m s).1
  unfolding ◌>>◌ resume
  then_ok m k s a e = rw e refl

module _ {S A B : Type 0} {P : S → Type 0} {Q : A → S → Type 0} {R : B → S → Type 0} where
  pub Total-bind :
      (m : M S A) (f : A → M S B)
      → Total P m Q
      → ((a : A) → Total (Q a) (f a) R)
      → Total P (m >>= f) R
  Total-bind m f first next = record {
    at = λ s h.
        let (a, e, q) = first.at s h in
        let (b, e', r) = (next a).at (m s).1 q in
        let whole = bind_ok m f s a e in (b, ap (λ x. x.0) whole ∙ e', rw whole r);
  }

module _ {S A B : Type 0} {P I : S → Type 0} {R : B → S → Type 0} where
  pub Total-then :
      (m : M S A) (k : M S B) → Total P m (λ _ s. I s) → Total I k R → Total P (m >> k) R
  Total-then m k first next = record {
    at = λ s h.
        let (a, e, q) = first.at s h in
        let (b, e', r) = next.at (m s).1 q in
        let whole = then_ok m k s a e in (b, ap (λ x. x.0) whole ∙ e', rw whole r);
  }

ok_after :
    {S A : Type 0} (E : S → Type 0) (Q : A → S → Type 0) (r : Result A) (s : S) (a : A)
    → r ≡ ok a
    → After Q E r s
    → Q a s
ok_after E Q r s a e h = subst (λ x. After Q E x s) e h

-- What holds of the result, where there is a value.
pub Total-of :
    {S A : Type 0} {P E : S → Type 0} {Q : A → S → Type 0} (m : M S A)
    → Triple P m Q E
    → ((s : S) → P s → (a : A) × ((m s).0 ≡ ok a))
    → Total P m Q
Total-of {E = E} {Q = Q} m t returns = record {
  at = λ s h. let (a, e) = returns s h in (a, e, ok_after E Q (m s).0 (m s).1 a e (t.at s h));
}

-- A value that is known.
Total-known :
    {S A B : Type 0} {P : S → Type 0} {Q : A → S → Type 0} (a b : B) (m : B → M S A)
    → Total P (m b) Q
    → Total (λ s. P s × (a ≡ b)) (m a) Q
Total-known {P = P} {Q = Q} a b m t = record {
  at = λ s (h, e). (subst (λ x. Total P (m x) Q) (sym e) t).at s h;
}

-- A method whose value is known, before the rest.
pub Total-bind_known :
    {S A B : Type 0} {P I : S → Type 0} {R : B → S → Type 0} (m : M S A) (b : A) (rest : A → M S B)
    → Total P m (λ a s. I s × (a ≡ b))
    → Total I (rest b) R
    → Total P (m >>= rest) R
Total-bind_known m b rest first next = Total-bind m rest first (λ a. Total-known a b rest next)

pub Total-guard :
    {S : Type 0} {P : S → Type 0} (c : Bool) (e : Error)
    → c ≡ false
    → Total P (throw_if c e) (λ _ s. P s)
unfolding throw_if
Total-guard c e no_error = record { at = λ s h. (tt, rw no_error refl, h) }
