-- ===== src/Fs/Losses.antt =====
-- Repairs add to what a group's storage contract owes (server/contract/fs.go, lines 787 to 893).
use mefs_go_settlement.Base.{
  ℕ, refl, sym, subst, ap, ◌∙◌, ◌==◌, ◌≡◌, ◌≢◌, arith, if◌then◌else◌, none, some, ℤ, pos, ◌+ℤ◌,
  ◌-ℤ◌, int_laws, nat_eq, lookup, lookup-insert, ok, M, Bool, Option, Error, gets, throw_if,
  or_throw, or_crash, modify, resume, ◌>>=◌, ◌>>◌, inl, inr, Option-cases,
}
use mefs_go_settlement.Base.Triple.{After, Triple, Triple-guard, Triple-or_crash, Triple-ok}
use mefs_go_settlement.Utils.Key.{Address}
use mefs_go_settlement.Keys.{MultiKey, key, multi_key_eq}
use mefs_go_settlement.Settlement
use mefs_go_settlement.Settlement.{Settlement}
use mefs_go_settlement.Fs.{FsMgr, FsInfo}
use mefs_go_settlement.Fs.Orders.{set_settlement, count_call, share_of, pay_of}
use mefs_go_settlement.Fs.Repairs.{set_repair, pay_loss, book_repair, add_repair}
use mefs_go_settlement.Fs.Liability.{liability}
use mefs_go_settlement.Fs.Books.{liability-count_call, obligation-add, liability-set_settlement}

liability-pay_loss :
    (t : ℕ) (k : MultiKey) (pay : ℤ) (f : FsMgr)
    → lookup k f.pro_info ≢ none
    → liability t (pay_loss k pay f) ≡ liability t f -ℤ (if k.token_index == t then pay else pos 0)
unfolding pay_loss
liability-pay_loss t k pay f known = elim (Option-cases (lookup k f.pro_info)) [
  | inl e ↦ absurd (known e)
  | inr (se, e) ↦
      let se' : Settlement = record se { lost_paid = se.lost_paid +ℤ pay } in
      rw (e, pay_loss) (grind (int_laws, liability-set_settlement t k se' f, e))
]

liability-book_repair :
    (t pro newpro start size token : ℕ) (sprice pay manage : ℤ) (f : FsMgr)
    → lookup (key pro token) f.pro_info ≢ none
    → lookup (key newpro token) f.pro_info ≢ none
    → liability t (book_repair pro newpro start size token sprice pay manage f)
      ≡ liability t f +ℤ (if token == t then manage else pos 0)
unfolding book_repair
liability-book_repair t pro newpro start size token sprice pay manage f known served =
    let k = key newpro token in
    elim (Option-cases (lookup k f.pro_info)) [
      | inl e ↦ absurd (served e)
      | inr (nse, e) ↦
          let nse' = Settlement.add start size sprice pay manage nse in
          let f' = set_settlement k nse' f in
          let kept : lookup (key pro token) f'.pro_info ≢ none =
            ground (arith, lookup-insert k (key pro token) nse' f.pro_info, known) in
          rw (e, book_repair)
            (grind (
              int_laws,
              liability-pay_loss t (key pro token) pay f' kept,
              liability-set_settlement t k nse' f,
              obligation-add start size sprice pay manage nse,
            ))
    ]

-- ## The call

module _ (t : ℕ) (f : FsMgr) where
  -- A contract that differs from `f` in nothing that is owed.
  abbrev Alike : FsMgr → Type 0
  Alike g =
      (g.pro_info ≡ f.pro_info) × (g.manage_rate ≡ f.manage_rate) × (liability t g ≡ liability t f)

  abbrev Anything : FsMgr → Type 0
  Anything g = Unit

  module _ {R : Unit {0} → FsMgr → Type 0} where
    past_gets :
        {A : Type 0} (view : FsMgr → A) (k : A → M FsMgr (Unit {0}))
        → ((a : A) → Triple Alike (k a) R Anything)
        → Triple Alike (gets view >>= k) R Anything
    unfolding gets ◌>>=◌ resume
    past_gets view k next = record { at = λ s h. (next (view s)).at s h }

    past_throw_if :
        (c : Bool) (e : Error) (k : M FsMgr (Unit {0}))
        → Triple Alike k R Anything
        → Triple Alike (throw_if c e >> k) R Anything
    past_throw_if c e k next = Triple-guard (λ s h. tt) c e k (λ _. next)

    past_or_throw :
        {A : Type 0} (o : Option A) (e : Error) (k : A → M FsMgr (Unit {0}))
        → ((a : A) → Triple Alike (k a) R Anything)
        → Triple Alike (or_throw o e >>= k) R Anything
    unfolding or_throw ◌>>=◌ resume
    past_or_throw none e k next = record { at = λ s h. tt }
    past_or_throw (some a) e k next = record { at = λ s h. (next a).at s h }

    past_or_crash :
        {A : Type 0} (o : Option A) (k : A → M FsMgr (Unit {0}))
        → ((a : A) → Triple Alike (k a) R Anything)
        → Triple Alike (or_crash o >>= k) R Anything
    past_or_crash o k next = Triple-or_crash (λ s h. tt) o k (λ a _. next a)

    past_repair :
        (fi : FsInfo) (k : M FsMgr (Unit {0}))
        → Triple Alike k R Anything
        → Triple Alike (modify (set_repair fi) >> k) R Anything
    unfolding modify ◌>>◌ resume liability
    past_repair fi k next = record { at = λ s h. next.at (set_repair fi s) h }

    past_check :
        {A : Type 0} (o : Option A) (e : Error) (k : M FsMgr (Unit {0}))
        → Triple Alike k R Anything
        → Triple Alike (or_throw o e >> k) R Anything
    unfolding or_throw ◌>>◌ resume
    past_check none e k next = record { at = λ s h. tt }
    past_check (some a) e k next = record { at = λ s h. next.at s h }

    past_rate :
        (pay : ℤ) (k : ℤ → M FsMgr (Unit {0}))
        → Triple Alike (k (share_of f.manage_rate pay)) R Anything
        → Triple Alike (gets (λ g. share_of g.manage_rate pay) >>= k) R Anything
    unfolding gets ◌>>=◌ resume
    past_rate pay k next = record {
      at = λ s h.
          subst (λ rate. After R Anything (k (share_of rate pay) s).0 (k (share_of rate pay) s).1)
            (sym h.1) (next.at s h);
    }

  -- What is owed with the keepers' share of the repair.
  abbrev Charged : (pro newpro start end token : ℕ) (sprice : ℤ) → FsMgr → Type 0
  Charged pro newpro start end token sprice g =
      liability t g
      ≡ liability t f
        +ℤ (if token == t then share_of f.manage_rate (pay_of start end sprice) else pos 0)

  booked-Charged :
      (kindex pro newpro start end size token : ℕ) (sprice : ℤ)
      → lookup (key pro token) f.pro_info ≢ none
      → lookup (key newpro token) f.pro_info ≢ none
      → let pay = pay_of start end sprice in
        Triple Alike
          (modify (book_repair pro newpro start size token sprice pay (share_of f.manage_rate pay))
            >> modify (count_call kindex))
          (λ _ g. Charged pro newpro start end token sprice g)
          Anything
  unfolding modify ◌>>◌ resume
  booked-Charged kindex pro newpro start end size token sprice known served = record {
    at = λ g h.
        let pay = pay_of start end sprice in
        let manage = share_of f.manage_rate pay in
        let booked =
          liability-book_repair t pro newpro start size token sprice pay manage g (rw h.0 known)
            (rw h.0 served) in
        liability-count_call t kindex (book_repair pro newpro start size token sprice pay manage g)
        ∙ booked
        ∙ ap (λ owed. owed +ℤ (if token == t then manage else pos 0)) h.2;
  }

  add_repair-Charged :
      (caller : Address) (kindex pro newpro start end size nonce token : ℕ) (sprice : ℤ)
      → lookup (key pro token) f.pro_info ≢ none
      → lookup (key newpro token) f.pro_info ≢ none
      → Triple Alike
          (add_repair caller kindex pro newpro start end size nonce token sprice)
          (λ _ g. Charged pro newpro start end token sprice g)
          Anything
  unfolding add_repair
  add_repair-Charged caller kindex pro newpro start end size nonce token sprice known served =
      past_gets _ _ (λ owner. past_throw_if _ _ _ (
        past_throw_if _ _ _ (
          past_gets _ _ (λ profit. past_check profit _ _ (
            past_gets _ _ (λ account. past_or_throw account _ _ (λ se. past_rate _ _ (
              past_throw_if _ _ _ (
                past_gets _ _ (λ fi. past_repair fi _ (
                  past_or_crash _ _ (λ pi. past_throw_if _ _ _ (
                    past_repair _ _ (
                      booked-Charged kindex pro newpro start end size token sprice known
                        served))))))))))))))

-- Where both providers have an account in the token, an `AddRepair` that succeeds makes the contract
-- owe more in that token, by the keepers' share of the repair, and changes nothing of what it owes in
-- any other: what the new provider is owed is taken off what the old one is, and nobody pays the
-- keepers' share.
pub liability-add_repair :
    (t : ℕ) (caller : Address) (kindex pro newpro start end size nonce token : ℕ) (sprice : ℤ)
    (f : FsMgr)
    → lookup (key pro token) f.pro_info ≢ none
    → lookup (key newpro token) f.pro_info ≢ none
    → (add_repair caller kindex pro newpro start end size nonce token sprice f).0 ≡ ok tt
    → liability t (add_repair caller kindex pro newpro start end size nonce token sprice f).1
      ≡ liability t f
        +ℤ (if token == t then share_of f.manage_rate (pay_of start end sprice) else pos 0)
liability-add_repair t caller kindex pro newpro start end size nonce token sprice f known served
      done =
    Triple-ok (Charged t f pro newpro start end token sprice) _ _ tt
      (add_repair-Charged t f caller kindex pro newpro start end size nonce token sprice known
        served)
      f (refl, refl, refl) done
