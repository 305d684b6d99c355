-- ===== src/Fs/Kept.antt =====
-- What calls keep of the storage contract at an address (server/contract/fs.go,
-- server/contract/common.go).
use mefs_go_settlement.Base.{
  ◌≡◌, refl, some, ℤ, nat_eq, M, subst, inl, inr, Option-cases, Result, ok, err, panic,
  lookup-insert_self,
}
use mefs_go_settlement.Base.Keeps.{Keeps}
use mefs_go_settlement.Base.Triple.{After, Triple}
use mefs_go_settlement.Utils.Key.{Address}
use mefs_go_settlement.Fs.{FsMgr}
use mefs_go_settlement.Role.{RoleMgr}
use mefs_go_settlement.World.{
  World, as_fs, fs_mgr, find_fs, on_fs, on_role, store, send_balance, send_balance_from,
}
use mefs_go_settlement.World.Kept.{KeptAt, stored, Keeps-on_role, Keeps-call_token}

-- `P` holds of the storage contract at `self`, if there is one.
abbrev pub FsAt : (FsMgr → Type 0) → Address → World → Type 0
FsAt P self = KeptAt as_fs P self

-- The same of another predicate that follows.
pub FsAt-so :
    {P Q : FsMgr → Type 0} (self : Address) (w : World)
    → ((f : FsMgr) → P f → Q f)
    → FsAt P self w
    → FsAt Q self w
FsAt-so self w so h = record { kept = λ f at. so f (h.kept f at) }

-- The contract that has been written.
pub only :
    {P : FsMgr → Type 0} {self : Address} (f : FsMgr) (w : World)
    → P f
    → FsAt P self (store self (fs_mgr f) w)
only {P = P} {self = self} f w h = record {
  kept = λ g at.
      let is : f ≡ g = cc (at, lookup-insert_self self (fs_mgr f) w.objects) in subst P is h;
}

module _ {P : FsMgr → Type 0} {A : Type 0} (self addr : Address) where
  -- A method of a storage contract that keeps it.
  pub Keeps-on_fs : (m : M FsMgr A) → Keeps P m → Keeps (FsAt P self) (on_fs addr m)
  unfolding on_fs find_fs
  Keeps-on_fs m k = record {
    at = λ w h. elim (Option-cases (find_fs addr w)) [
      | inl e ↦ rw (e, on_fs) h
      | inr (f, e) ↦
          let known : (a : Address) → addr ≡ a → find_fs a w ≡ some f =
            λ a same. subst (λ x. find_fs x w ≡ some f) same e in
          rw (e, on_fs)
            (stored as_fs P self addr _ w
              (λ g same at.
                let is : (m f).1 ≡ g = cc at in subst P is (k.at f (h.kept f (known self same))))
              h)
    ];
  }

  pub Keeps-of_role : (m : M RoleMgr A) → Keeps (FsAt P self) (on_role addr m)
  Keeps-of_role m = Keeps-on_role as_fs P self addr m (λ r. refl)

-- A method of the contract itself, by its result.
module _ {A : Type 0} (E : FsMgr → Type 0) (Q : A → FsMgr → Type 0) (self : Address) where
  stored-After :
      (r : Result A) (f : FsMgr) (w : World)
      → After Q E r f
      → After (λ a. FsAt (Q a) self) (FsAt E self) r (store self (fs_mgr f) w)
  stored-After (ok a) f w h = only f w h
  stored-After (err e) f w h = only f w h
  stored-After panic f w h = only f w h

module _ {P E : FsMgr → Type 0} {A : Type 0} {Q : A → FsMgr → Type 0} (self : Address) where
  pub on_fs-FsAt :
      (m : M FsMgr A)
      → Triple P m Q E
      → Triple (FsAt P self) (on_fs self m) (λ a. FsAt (Q a) self) (FsAt E self)
  unfolding on_fs find_fs
  on_fs-FsAt m t = record {
    at = λ w h. elim (Option-cases (find_fs self w)) [
      | inl e ↦ rw (e, on_fs) (record { kept = λ f at. absurd (cc (e, at)) })
      | inr (f, e) ↦ rw (e, on_fs) (stored-After E Q self (m f).0 (m f).1 w (t.at f (h.kept f e)))
    ];
  }

module _ {P : FsMgr → Type 0} (self : Address) where
  pub send-FsAt :
      (t caller to : Address) (money : ℤ) → Keeps (FsAt P self) (send_balance t caller to money)
  unfolding send_balance
  send-FsAt t caller to money = Keeps-call_token as_fs P self t _ (λ e. refl)

  pub send_from-FsAt :
      (t caller from to : Address) (money : ℤ)
      → Keeps (FsAt P self) (send_balance_from t caller from to money)
  unfolding send_balance_from
  send_from-FsAt t caller from to money = Keeps-call_token as_fs P self t _ (λ e. refl)
