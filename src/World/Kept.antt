-- ===== src/World/Kept.antt =====
-- What calls keep of one contract of the table (server/contract/common.go).
use mefs_go_settlement.Base.{
  ◌==◌, ◌≡◌, ap, arith, Bool, if◌then◌else◌, Option, none, some, nat_eq, lookup, lookup-insert, M,
  inl, inr, Bool-cases, Option-cases,
}
use mefs_go_settlement.Base.Keeps.{Keeps, keeps_rules}
use mefs_go_settlement.Utils.Key.{Address}
use mefs_go_settlement.Erc.{ErcToken}
use mefs_go_settlement.Role.{RoleMgr}
use mefs_go_settlement.World.{
  World, Object, erc_token, role_mgr, find_erc, find_role, store, on_erc, on_role, call_token,
  get_role_mgr,
}

-- `P` holds of the contract at `self`, if there is one of the kind that `as` tells.
pub record KeptAt {X : Type 0} (as_x : Option Object → Option X) (P : X → Type 0) (self : Address)
    (w : World) : Type 0 where
  pub kept : (x : X) → as_x (lookup self w.objects) ≡ some x → P x

module _ {X : Type 0} (as_x : Option Object → Option X) (P : X → Type 0) (self : Address) where
  as_x-store :
      (addr : Address) (o : Object) (w : World)
      → as_x (lookup self (store addr o w).objects)
        ≡ (if addr == self then as_x (some o) else as_x (lookup self w.objects))
  as_x-store addr o w = rw (lookup-insert addr self o w.objects) (ground arith)

  pub stored :
      (addr : Address) (o : Object) (w : World)
      → ((x : X) → addr ≡ self → as_x (some o) ≡ some x → P x)
      → KeptAt as_x P self w
      → KeptAt as_x P self (store addr o w)
  stored addr o w fine h = record {
    kept = λ x at.
        let read = λ (b : Bool). if b then as_x (some o) else as_x (lookup self w.objects) in
        elim (Bool-cases (addr == self)) [
          | inl e ↦ fine x (ground (arith, e)) (cc (as_x-store addr o w, at, ap read e))
          | inr e ↦ h.kept x (cc (as_x-store addr o w, at, ap read e))
        ];
  }

  module _ {A : Type 0} (addr : Address) where
    pub Keeps-on_erc :
        (m : M ErcToken A)
        → ((e : ErcToken) → as_x (some (erc_token e)) ≡ none)
        → Keeps (KeptAt as_x P self) (on_erc addr m)
    unfolding on_erc
    Keeps-on_erc m other = record {
      at = λ w h. elim (Option-cases (find_erc addr w)) [
        | inl e ↦ rw (e, on_erc) h
        | inr (t, e) ↦
            rw (e, on_erc) (stored addr _ w (λ x same at. absurd (cc (at, other (m t).1))) h)
      ];
    }

    pub Keeps-on_role :
        (m : M RoleMgr A)
        → ((r : RoleMgr) → as_x (some (role_mgr r)) ≡ none)
        → Keeps (KeptAt as_x P self) (on_role addr m)
    unfolding on_role
    Keeps-on_role m other = record {
      at = λ w h. elim (Option-cases (find_role addr w)) [
        | inl e ↦ rw (e, on_role) h
        | inr (r, e) ↦
            rw (e, on_role) (stored addr _ w (λ x same at. absurd (cc (at, other (m r).1))) h)
      ];
    }

    pub Keeps-call_token :
        (m : M ErcToken A)
        → ((e : ErcToken) → as_x (some (erc_token e)) ≡ none)
        → Keeps (KeptAt as_x P self) (call_token addr m)
    unfolding call_token
    Keeps-call_token m other = record {
      at = λ w h. elim (Option-cases (find_erc addr w)) [
        | inl e ↦ rw (e, call_token) h
        | inr (t, e) ↦ rw (e, call_token) ((Keeps-on_erc m other).at w h)
      ];
    }

  pub get_role_mgr-KeptAt : (a : Address) → Keeps (KeptAt as_x P self) (get_role_mgr a)
  unfolding get_role_mgr
  get_role_mgr-KeptAt a = search keeps_rules depth 20
