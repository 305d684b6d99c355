-- ===== src/Role/Levels.antt =====
-- The steps of the loop of `AddOrder` that raises the level of issuance (server/contract/role.go, lines
-- 860 to 873).
use mefs_go_settlement.Base.{
  ℕ, zero, suc, ◌+◌, ◌≤◌, ◌≡◌, refl, ap, arith, if◌then◌else◌, List, [], ◌∷◌, length, get_elem?,
  none, Option-cases, inl, inr, pos, ltb_ℤ, leb_ℤ, ◌/ℤ◌,
}
use mefs_go_settlement.Role.{RoleMgr, MintInfo}
use mefs_go_settlement.Role.Mint.{raise_level}

past : {A : Type 0} (xs : List A) (i : ℕ) → length xs ≤ i → get_elem? xs i ≡ none
past [] i h = refl
past (x ∷ xs) zero h = absurd (omega (arith, h))
past (x ∷ xs) (suc i) h = past xs i (omega (arith, h))

stopped : (n i : ℕ) (r : RoleMgr) → length r.mint ≤ i → raise_level n i r ≡ r
unfolding raise_level
stopped zero i r h = refl
stopped (suc n) i r h = rw (past r.mint i h, raise_level) refl

-- What a level does to the registry, before the next.
abbrev pub divided : MintInfo → RoleMgr → RoleMgr
divided mi r = record r {
  space_time = r.space_time /ℤ (if ltb_ℤ (pos mi.size) r.size then r.size else pos mi.size);
}

-- The loop has ended after as many steps as there are levels from `i` on: with any more steps it gives
-- the same.
pub raise_level-ends :
    (k n i : ℕ) (r : RoleMgr)
    → length r.mint ≤ k + i
    → k ≤ n
    → raise_level n i r ≡ raise_level k i r
unfolding raise_level
raise_level-ends zero n i r enough more = stopped n i r (omega (arith, enough))
raise_level-ends (suc k) zero i r enough more = absurd (omega (arith, more))
raise_level-ends (suc k) (suc n) i r enough more = elim (Option-cases (get_elem? r.mint i)) [
  | inl e ↦ rw (e, raise_level) refl
  | inr (mi, e) ↦
      let rest : length r.mint ≤ k + suc i = omega (arith, enough) in
      let fewer : k ≤ n = omega (arith, more) in
      let next = record (divided mi r) { mint_level = i } in
      rw (e, raise_level)
        (ap (λ t. if leb_ℤ (pos mi.duration) (divided mi r).space_time then t else divided mi r)
          (raise_level-ends k n (suc i) next rest fewer))
]
