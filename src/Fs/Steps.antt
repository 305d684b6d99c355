-- ===== src/Fs/Steps.antt =====
-- The steps of the calls of server/contract/fs.go, lines 598 to 785, that move tokens, and what a
-- group's storage contract holds and owes after each.
use mefs_go_settlement.Base.{
  ℕ, ◌≡◌, refl, some, ℤ, ◌+ℤ◌, ◌≤ℤ◌, nat_eq, M, gets, modify, methods, get_elem?, sym, inl, inr,
  Option-cases,
}
use mefs_go_settlement.Base.Triple.{Triple, Triple-any}
use mefs_go_settlement.Utils.Key.{Address}
use mefs_go_settlement.Keys.{multi_key_eq}
use mefs_go_settlement.Erc.{ErcToken, balance_of}
use mefs_go_settlement.Role.{RoleMgr, get_token_address}
use mefs_go_settlement.World.{
  World, role_mgr, find_erc, find_fs, find_role, on_fs, on_role, store, get_role_mgr,
}
use mefs_go_settlement.Fs.{FsMgr}
use mefs_go_settlement.Fs.Liability.{liability}
use mefs_go_settlement.Fs.Covered.{Holds, IsListed, find_fs-store, find_role-store}

module _ (self owner taddr : Address) (token : ℕ) where
  -- ## The steps of the calls

  abbrev pub Covered : (FsMgr → Type 0) → ℤ → World → Type 0
  Covered X slack w = Holds self owner taddr token X slack w

  -- `a` is the address of the registry's token number `tok`, as far as it is about `token`.
  abbrev pub Names : (tok : ℕ) (a : Address) → Type 0
  Names tok a = (tok ≡ token → a ≡ taddr) × (a ≡ taddr → tok ≡ token)

  -- A world in which the three contracts are found.
  pub in_world :
      {X : FsMgr → Type 0} {slack : ℤ} (w : World) (f : FsMgr) (r : RoleMgr) (e : ErcToken)
      → (find_fs self w ≡ some f) × (find_role owner w ≡ some r) × (find_erc taddr w ≡ some e)
      → f.owner ≡ owner
      → IsListed taddr token r.tokens
      → liability token f +ℤ slack ≤ℤ balance_of self e
      → X f
      → Covered X slack w
  in_world w f r e found owned listed covered also = record {
    fs = f;
    role = r;
    erc = e;
    fs_at = found.0;
    role_at = found.1;
    erc_at = found.2;
    owned = owned;
    listed = listed;
    covered = covered;
    also = also;
  }

  pub on_fs-modify :
      {X X' : FsMgr → Type 0} (g : FsMgr → FsMgr) (slack slack' : ℤ) {E : World → Type 0}
      → ((f : FsMgr) → (g f).owner ≡ f.owner)
      → ((f : FsMgr) → X f → liability token (g f) +ℤ slack' ≡ liability token f +ℤ slack)
      → ((f : FsMgr) → X f → X' (g f))
      → Triple (Covered X slack) (on_fs self (modify g)) (λ _ w. Covered X' slack' w) E
  unfolding on_fs modify
  on_fs-modify g slack slack' same_owner same also = record {
    at = λ w h.
        rw (h.fs_at, on_fs)
          (in_world _ (g h.fs) h.role h.erc
            (find_fs-store self owner taddr w h.fs (g h.fs) h.role h.erc h.fs_at h.role_at h.erc_at)
            (rw (same_owner h.fs) h.owned) h.listed (rw (same h.fs h.also) h.covered)
            (also h.fs h.also));
  }

  -- A method that keeps the owner, and changes nothing of what is owed, on success or on error.
  pub on_fs-Covered :
      {X X' : FsMgr → Type 0} {A : Type 0} (m : M FsMgr A) (slack : ℤ)
      → ((f : FsMgr) → (m f).1.owner ≡ f.owner)
      → ((f : FsMgr) → X f → liability token (m f).1 ≡ liability token f)
      → ((f : FsMgr) → X f → X' (m f).1)
      → Triple (Covered X slack) (on_fs self m) (λ _ w. Covered X' slack w) (Covered X' slack)
  unfolding on_fs
  on_fs-Covered m slack same_owner same also = Triple-any _ (λ w h.
      rw (h.fs_at, on_fs)
        (in_world _ (m h.fs).1 h.role h.erc
          (find_fs-store self owner taddr w h.fs (m h.fs).1 h.role h.erc h.fs_at h.role_at h.erc_at)
          (rw (same_owner h.fs) h.owned) h.listed (rw (same h.fs h.also) h.covered)
          (also h.fs h.also)))

  -- A value that is read from the contract.
  pub on_fs-reads :
      {A : Type 0} (view : FsMgr → A) (slack : ℤ) {E : World → Type 0} {X : FsMgr → Type 0}
      → Triple
          (Covered X slack)
          (on_fs self (gets view))
          (λ a w. Covered (λ f. view f ≡ a) slack w)
          E
  unfolding on_fs gets
  on_fs-reads view slack = record {
    at = λ w h.
        rw (h.fs_at, on_fs)
          (in_world _ h.fs h.role h.erc
            (find_fs-store self owner taddr w h.fs h.fs h.role h.erc h.fs_at h.role_at h.erc_at)
            h.owned h.listed h.covered refl);
  }

  -- A method of the registry that only reads it.
  pub on_role-reads :
      {X : FsMgr → Type 0} {A : Type 0} (m : M RoleMgr A) (slack : ℤ)
      → ((r : RoleMgr) → (m r).1 ≡ r)
      → Triple (Covered X slack) (on_role owner m) (λ _ w. Covered X slack w) (Covered X slack)
  unfolding on_role
  on_role-reads m slack same = Triple-any _ (λ w h.
      rw (h.role_at, on_role)
        (rw (same h.role) (
          in_world _ h.fs h.role h.erc
            (find_role-store self owner taddr w h.fs h.role h.erc h.fs_at h.role_at h.erc_at)
            h.owned h.listed h.covered h.also)))

  module _ {X : FsMgr → Type 0} where
    pub get_owner :
        (slack : ℤ) {E : World → Type 0}
        → Triple
            (Covered X slack)
            (on_fs self (gets (λ f. f.owner)))
            (λ a w. Covered X slack w × (a ≡ owner))
            E
    unfolding on_fs gets
    get_owner slack = record {
      at = λ w h.
          rw (h.fs_at, on_fs)
            (
              in_world _ h.fs h.role h.erc
                  (find_fs-store self owner taddr w h.fs h.fs h.role h.erc h.fs_at h.role_at
                    h.erc_at)
                  h.owned h.listed h.covered h.also,
              h.owned,
            );
    }

    pub find_registry :
        (slack : ℤ) {E : World → Type 0}
        → Triple (Covered X slack) (get_role_mgr owner) (λ _ w. Covered X slack w) E
    unfolding get_role_mgr methods
    find_registry slack = record { at = λ w h. rw (h.role_at, get_role_mgr) h }

    pub token_address :
        (tok : ℕ) (slack : ℤ)
        → Triple
            (Covered X slack)
            (on_role owner (get_token_address tok))
            (λ a w. Covered X slack w × Names tok a)
            (Covered X slack)
    token_address tok slack = record {
      at = λ w h.
          let found =
            (find_role-store self owner taddr w h.fs h.role h.erc h.fs_at h.role_at h.erc_at) in
          let kept : Covered X slack (store owner (role_mgr h.role) w) =
            in_world _ h.fs h.role h.erc found h.owned h.listed h.covered h.also in
          elim (Option-cases (get_elem? h.role.tokens tok)) [
            | inl e ↦ unfold on_role get_token_address methods in rw (h.role_at, on_role, e) kept
            | inr (a, e) ↦
                unfold on_role get_token_address methods in
                rw (h.role_at, on_role, e)
                  (kept, (λ same. cc (h.listed.0), λ same. h.listed.1 tok (rw (sym same) e)))
          ];
    }
