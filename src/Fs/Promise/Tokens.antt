-- ===== src/Fs/Promise/Tokens.antt =====
-- What `GetBalance` tells a keeper, and what sharing the profit gives it (server/contract/fs.go, lines 548
-- to 595 and 657 to 692).
use mefs_go_settlement.Base.{
  ℕ, false, ◌<◌, leb, sub64, ◌≡◌, ◌≢◌, refl, sym, ap, ◌∙◌, arith, List, [], ◌∷◌, none, some,
  Option-cases, inl, inr, ℤ, pos, ◌+ℤ◌, ◌*ℤ◌, ◌/ℤ◌, nat_eq, lookup, or_zero, ok, err, err_empty,
  methods, resume,
}
use mefs_go_settlement.Keys.{key, multi_key_eq}
use mefs_go_settlement.Pledge.Shares.{Absent, Once}
use mefs_go_settlement.Fs.{FsMgr}
use mefs_go_settlement.Fs.Funds.{
  get_balance, with_profit, pay_keepers, share_token, share_tokens, share_profit,
}
use mefs_go_settlement.Fs.Promise.{
  balance, profit, Alike, pay_keepers-Alike, balance-Once, other_token,
}

module _ (k t : ℕ) where
  -- The part of the keeper, which has made `kc` calls.
  abbrev part : (kc : ℕ) → FsMgr → ℤ
  part kc f = profit k t f /ℤ pos f.total_count *ℤ pos kc

  shared : (token : ℕ) (f : FsMgr) → FsMgr
  shared token f =
      pay_keepers token (or_zero (lookup token f.t_acc) /ℤ pos f.total_count) f.keepers f

  tokens_none :
      (token : ℕ) (ts : List ℕ) (f : FsMgr)
      → lookup token f.t_acc ≡ none
      → (share_tokens (token ∷ ts) f).0 ≡ err err_empty
  unfolding share_tokens share_token methods resume
  tokens_none token ts f e = rw e refl

  tokens_some :
      (token : ℕ) (ts : List ℕ) (f : FsMgr) (acc : ℤ)
      → lookup token f.t_acc ≡ some acc
      → share_tokens (token ∷ ts) f ≡ share_tokens ts (shared token f)
  unfolding share_tokens share_token shared methods resume
  tokens_some token ts f acc e = rw e refl

  tokens_step :
      (token : ℕ) (ts : List ℕ) (f : FsMgr)
      → (share_tokens (token ∷ ts) f).0 ≡ ok tt
      → share_tokens (token ∷ ts) f ≡ share_tokens ts (shared token f)
  tokens_step token ts f done = elim (Option-cases (lookup token f.t_acc)) [
    | inl e ↦ let never = tokens_none token ts f e in absurd (cc (never, done))
    | inr (acc, e) ↦ tokens_some token ts f acc e
  ]

  shared-Alike : (token : ℕ) (f : FsMgr) → Alike k t f (shared token f)
  unfolding shared
  shared-Alike token f = pay_keepers-Alike k t token _ f.keepers f

  shared-other :
      (token : ℕ) (f : FsMgr)
      → token ≢ t
      → (balance k t (shared token f) ≡ balance k t f)
        × (profit k t (shared token f) ≡ profit k t f)
  unfolding shared
  shared-other token f other = other_token k t token _ f.keepers f other

  tokens-Absent :
      (ts : List ℕ) (f : FsMgr)
      → Absent t ts
      → (share_tokens ts f).0 ≡ ok tt
      → balance k t (share_tokens ts f).1 ≡ balance k t f
  tokens-Absent [] f absent done = unfold share_tokens methods in refl
  tokens-Absent (token ∷ ts) f absent done =
      let step = tokens_step token ts f done in
      let rest = tokens-Absent ts (shared token f) absent.1 (ap (λ r. r.0) (sym step) ∙ done) in
      ap (λ r. balance k t r.1) step ∙ rest ∙ (shared-other token f absent.0).0

  tokens-Once :
      (kc : ℕ) (ts : List ℕ) (f : FsMgr)
      → Once t ts
      → Once k f.keepers
      → lookup k f.count ≡ some kc
      → (share_tokens ts f).0 ≡ ok tt
      → balance k t (share_tokens ts f).1 ≡ balance k t f +ℤ part kc f
  unfolding shared
  tokens-Once kc [] f once one counted done = absurd once
  tokens-Once kc (token ∷ ts) f (inl (same, absent)) one counted done =
      let step = tokens_step token ts f done in
      let rest = tokens-Absent ts (shared token f) absent (ap (λ r. r.0) (sym step) ∙ done) in
      ap (λ r. balance k t r.1) step
      ∙ rest
      ∙ rw same (balance-Once k t (profit k t f /ℤ pos f.total_count) kc f.keepers f one counted)
  tokens-Once kc (token ∷ ts) f (inr (other, once)) one counted done =
      let step = tokens_step token ts f done in
      let alike = shared-Alike token f in
      let apart = shared-other token f other in
      let rest =
        tokens-Once kc ts (shared token f) once (rw alike.keepers one) (alike.count kc counted)
          (ap (λ r. r.0) (sym step) ∙ done) in
      ap (λ r. balance k t r.1) step ∙ rest ∙ rw (apart.0, apart.1, alike.total) refl

module _ (now k t : ℕ) (f : FsMgr) (due : f.period < sub64 now f.last_time) where
  sharing_ok :
      (share_profit now f).0 ≡ ok tt
      → (leb f.total_count 0 ≡ false) × ((share_tokens f.tokens f).0 ≡ ok tt)
  unfolding share_profit methods resume
  sharing_ok done = ground (arith, due, done)

  sharing_balance :
      leb f.total_count 0 ≡ false
      → (share_tokens f.tokens f).0 ≡ ok tt
      → (share_profit now f).1.balance ≡ (share_tokens f.tokens f).1.balance
  unfolding share_profit methods resume
  sharing_balance some_calls done = ground (arith, due, some_calls, done)

  told_balance :
      (kc : ℕ) (avail lock : ℤ)
      → lookup k f.count ≡ some kc
      → leb f.total_count 0 ≡ false
      → (get_balance now k t f).0 ≡ ok (avail, lock)
      → balance k t f +ℤ part k t kc f ≡ avail
  unfolding get_balance with_profit methods resume
  told_balance kc avail lock counted some_calls told =
      ground (arith, due, counted, some_calls, told)

-- What `GetBalance` tells a keeper that is available, once more than a period is over, is what it has in
-- its balance after the profit has been shared, as `Withdraw` does first: where the keeper stands once
-- among the group's keepers and has a count, the token stands once among the group's tokens, and the
-- sharing succeeds.
pub keeper_has_avail :
    (now k t kc : ℕ) (avail lock : ℤ) (f : FsMgr)
    → Once k f.keepers
    → Once t f.tokens
    → lookup k f.count ≡ some kc
    → f.period < sub64 now f.last_time
    → (get_balance now k t f).0 ≡ ok (avail, lock)
    → (share_profit now f).0 ≡ ok tt
    → or_zero (lookup (key k t) (share_profit now f).1.balance) ≡ avail
keeper_has_avail now k t kc avail lock f one once counted due told done =
    let sharing = sharing_ok now k t f due done in
    ap (λ d. or_zero (lookup (key k t) d)) (sharing_balance now k t f due sharing.0 sharing.1)
    ∙ tokens-Once k t kc f.tokens f once one counted sharing.1
    ∙ told_balance now k t f due kc avail lock counted sharing.0 told
