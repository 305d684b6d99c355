-- ===== src/Role/Members.antt =====
-- Every call of the registry keeps its two views of its members in agreement
-- (server/contract/role.go).
pub mod Steps
pub mod Calls
pub mod Orders
use mefs_go_settlement.Base.{
  ℕ, ◌==◌, ◌≡◌, refl, arith, Bool, true, false, if◌then◌else◌, List, [], ◌∷◌, Option, none, some,
  Option-cases, Bool-cases, subst, ap, inl, inr, ℤ, pos, sub64, ◌+ℤ◌, ◌-ℤ◌, ◌*ℤ◌, nat_eq, lookup,
  insert, lookup-insert, M, modify, throw_if, methods,
}
use mefs_go_settlement.Base.Keeps.{Keeps, Keeps-modify, Keeps-pure, Keeps-then, keeps_rules}
use mefs_go_settlement.Utils.Key.{Address, Crypto}
use mefs_go_settlement.Erc.{ErcToken}
use mefs_go_settlement.Pledge.{PledgeMgr}
use mefs_go_settlement.Fs.{FsMgr}
use mefs_go_settlement.Role.{RoleMgr, BaseInfo, GroupInfo}
use mefs_go_settlement.World.{
  World, Object, erc_token, pledge_mgr, fs_mgr, role_mgr, as_role, store, find_erc, find_pledge,
  find_role, find_fs, on_erc, on_pledge, on_role, on_fs, call_token,
}
use mefs_go_settlement.Role.Registry.{IsRegistry}

-- Every registry in the table is in order.
pub record AllInOrder (w : World) : Type 0 where
  pub ordered : (a : Address) (r : RoleMgr) → find_role a w ≡ some r → IsRegistry r

Option-some : {A : Type 0} {a b : A} → some a ≡ some b → a ≡ b
Option-some e = cc e

find_role-store :
    (addr a : Address) (o : Object) (w : World)
    → find_role a (store addr o w) ≡ (if addr == a then as_role (some o) else find_role a w)
unfolding find_role
find_role-store addr a o w = rw (lookup-insert addr a o w.objects) (ground arith)

pub stored :
    (addr : Address) (o : Object) (w : World)
    → ((r : RoleMgr) → as_role (some o) ≡ some r → IsRegistry r)
    → AllInOrder w
    → AllInOrder (store addr o w)
stored addr o w fine h = record {
  ordered = λ a r at. elim (Bool-cases (addr == a)) [
    | inl e ↦ fine r (
        cc (
          find_role-store addr a o w,
          at,
          ap (λ (b : Bool). if b then as_role (some o) else find_role a w) e,
        ))
    | inr e ↦ h.ordered a r (
        cc (
          find_role-store addr a o w,
          at,
          ap (λ (b : Bool). if b then as_role (some o) else find_role a w) e,
        ))
  ];
}

module _ {A : Type 0} (addr : Address) where
  pub Keeps-on_erc : (m : M ErcToken A) → Keeps AllInOrder (on_erc addr m)
  unfolding on_erc
  Keeps-on_erc m = record {
    at = λ w h. elim (Option-cases (find_erc addr w)) [
      | inl e ↦ rw (e, on_erc) h
      | inr (t, e) ↦ rw (e, on_erc) (stored addr _ w (λ r at. ground (arith, at)) h)
    ];
  }

  pub Keeps-on_pledge : (m : M PledgeMgr A) → Keeps AllInOrder (on_pledge addr m)
  unfolding on_pledge
  Keeps-on_pledge m = record {
    at = λ w h. elim (Option-cases (find_pledge addr w)) [
      | inl e ↦ rw (e, on_pledge) h
      | inr (t, e) ↦ rw (e, on_pledge) (stored addr _ w (λ r at. ground (arith, at)) h)
    ];
  }

  pub Keeps-on_fs : (m : M FsMgr A) → Keeps AllInOrder (on_fs addr m)
  unfolding on_fs
  Keeps-on_fs m = record {
    at = λ w h. elim (Option-cases (find_fs addr w)) [
      | inl e ↦ rw (e, on_fs) h
      | inr (t, e) ↦ rw (e, on_fs) (stored addr _ w (λ r at. ground (arith, at)) h)
    ];
  }

  -- A method of a registry that keeps it in order.
  pub Keeps-on_role : (m : M RoleMgr A) → Keeps IsRegistry m → Keeps AllInOrder (on_role addr m)
  unfolding on_role
  Keeps-on_role m k = record {
    at = λ w h. elim (Option-cases (find_role addr w)) [
      | inl e ↦ rw (e, on_role) h
      | inr (r, e) ↦
          rw (e, on_role)
            (stored addr _ w
              (λ q at. subst IsRegistry (Option-some at) (k.at r (h.ordered addr r e))) h)
    ];
  }

  pub Keeps-call_token : (m : M ErcToken A) → Keeps AllInOrder (call_token addr m)
  unfolding call_token
  Keeps-call_token m = record {
    at = λ w h. elim (Option-cases (find_erc addr w)) [
      | inl e ↦ rw (e, call_token) h
      | inr (t, e) ↦ rw (e, call_token) ((Keeps-on_erc m).at w h)
    ];
  }
