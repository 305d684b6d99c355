-- ===== src/Role/Registry.antt =====
-- The registry's two views of its members: the list by index, and the table by address
-- (server/contract/role.go).
use mefs_go_settlement.Base.{
  ℕ, zero, suc, ◌==◌, ◌≡◌, refl, arith, length, get_elem?, if◌then◌else◌, Bool, true, false, List,
  [], ◌∷◌, ◌++◌, Option, none, some, Option-cases, inl, inr, nat_eq, lookup, insert, lookup-insert,
  modify, methods, ℤ, pos, Dict,
}
use mefs_go_settlement.Base.Keeps.{Keeps, Keeps-modify, keeps_rules}
use mefs_go_settlement.Utils.Key.{Address}
use mefs_go_settlement.Role.{BaseInfo, RoleMgr, GroupInfo, get_info, address_at, set_info}
use mefs_go_settlement.Role.Groups.{
  new_account, register, update_info, update_group, open_group, add_provider_to_group,
}
use mefs_go_settlement.Role.Mint.{add_at, book_totals, raise_level, reward_for, mint_order}

get_elem-append :
    {A : Type 0} (xs : List A) (x : A) (i : ℕ)
    → get_elem? (xs ++ x ∷ []) i ≡ (if i == length xs then some x else get_elem? xs i)
get_elem-append [] x zero = refl
get_elem-append [] x (suc i) = ground arith
get_elem-append (y ∷ xs) x zero = ground arith
get_elem-append (y ∷ xs) x (suc i) = ground (arith, get_elem-append xs x i)

get_elem-length : {A : Type 0} (xs : List A) → get_elem? xs (length xs) ≡ none
get_elem-length [] = refl
get_elem-length (x ∷ xs) = get_elem-length xs

-- The index under which the table has an address.
abbrev pub index_in : Address → Dict Address BaseInfo → Option ℕ
index_in a info = elim (lookup a info) [ none ↦ none | some bi ↦ some bi.index ]

index_in-insert :
    (k a : Address) (bi : BaseInfo) (info : Dict Address BaseInfo)
    → index_in a (insert k bi info) ≡ (if k == a then some bi.index else index_in a info)
index_in-insert k a bi info = rw (lookup-insert k a bi info, index_in) (ground arith)

-- The member at each index is in the table with that index, and each member of the table is in the
-- list at its index.
pub record Agrees (addrs : List Address) (info : Dict Address BaseInfo) : Type 0 where
  pub listed : (i : ℕ) (a : Address) → get_elem? addrs i ≡ some a → index_in a info ≡ some i
  pub placed : (a : Address) (i : ℕ) → index_in a info ≡ some i → get_elem? addrs i ≡ some a

abbrev pub IsRegistry : RoleMgr → Type 0
IsRegistry r = Agrees r.addrs r.info

added-IsRegistry :
    (addr : Address) (bi : BaseInfo) (r : RoleMgr)
    → lookup addr r.info ≡ none
    → bi.index ≡ length r.addrs
    → IsRegistry r
    → IsRegistry (record r { addrs = r.addrs ++ addr ∷ []; info = insert addr bi r.info })
added-IsRegistry addr bi r new last h = record {
  listed = λ i a at.
      ground
        (arith, get_elem-append r.addrs addr i, index_in-insert addr a bi r.info, h.listed i a);
  placed = λ a i at. ground (
    arith,
    get_elem-append r.addrs addr i,
    get_elem-length r.addrs,
    index_in-insert addr a bi r.info,
    h.placed a i,
  );
}

register-IsRegistry : (caller addr : Address) → Keeps IsRegistry (register caller addr)
unfolding register methods
register-IsRegistry caller addr = record {
  at = λ r h. elim (Option-cases (lookup addr r.info)) [
    | inr (bi, e) ↦ rw e h
    | inl e ↦ rw e (added-IsRegistry addr (new_account (length r.addrs)) r e refl h)
  ];
}

-- A member's record is changed, and its index is not.
set_info-IsRegistry :
    (addr : Address) (old new : BaseInfo) (r : RoleMgr)
    → lookup addr r.info ≡ some old
    → new.index ≡ old.index
    → IsRegistry r
    → IsRegistry (set_info addr new r)
set_info-IsRegistry addr old new r known same h = record {
  listed = λ i a at. ground (arith, index_in-insert addr a new r.info, h.listed i a at);
  placed = λ a i at. ground (arith, index_in-insert addr a new r.info, h.placed a i);
}

update_info-IsRegistry :
    (index : ℕ) (g : BaseInfo → BaseInfo) (r : RoleMgr)
    → ((bi : BaseInfo) → (g bi).index ≡ bi.index)
    → IsRegistry r
    → IsRegistry (update_info index g r)
unfolding update_info
update_info-IsRegistry index g r same h = elim (Option-cases (get_elem? r.addrs index)) [
  | inl e ↦ rw (e, update_info) h
  | inr (addr, e) ↦ elim (Option-cases (lookup addr r.info)) [
    | inl e' ↦ rw (e, update_info) (rw e' h)
    | inr (bi, e') ↦
        rw (e, update_info) (rw e' (set_info-IsRegistry addr bi (g bi) r e' (same bi) h))
  ]
]

-- ## Methods of the registry

kept_by_group :
    (index : ℕ) (g : GroupInfo → GroupInfo) (r : RoleMgr)
    → IsRegistry r
    → IsRegistry (update_group index g r)
unfolding update_group
kept_by_group index g r h = elim (Option-cases (get_elem? r.groups index)) [
  | inl e ↦ rw (e, update_group) h
  | inr (gi, e) ↦ rw (e, update_group) h
]

pub Keeps-update_group :
    (index : ℕ) (g : GroupInfo → GroupInfo) → Keeps IsRegistry (modify (update_group index g))
Keeps-update_group index g = Keeps-modify _ (kept_by_group index g)

pub Keeps-update_info :
    (index : ℕ) (g : BaseInfo → BaseInfo)
    → ((bi : BaseInfo) → (g bi).index ≡ bi.index)
    → Keeps IsRegistry (modify (update_info index g))
Keeps-update_info index g same = Keeps-modify _ (λ r h. update_info-IsRegistry index g r same h)

-- A change of other fields.
pub Keeps-others :
    (f : RoleMgr → RoleMgr)
    → ((r : RoleMgr) → IsRegistry r → IsRegistry (f r))
    → Keeps IsRegistry (modify f)
Keeps-others f same = Keeps-modify f same

pub either_way :
    (b : Bool) (q r : RoleMgr) → IsRegistry q → IsRegistry r → IsRegistry (if b then q else r)
either_way true q r hq hr = hq
either_way false q r hq hr = hr

kept_by_level : (k i : ℕ) (r : RoleMgr) → IsRegistry r → IsRegistry (raise_level k i r)
unfolding raise_level
kept_by_level zero i r h = h
kept_by_level (suc k) i r h = elim (Option-cases (get_elem? r.mint i)) [
  | inl e ↦ rw (e, raise_level) h
  | inr (mi, e) ↦ rw (e, raise_level) (either_way _ _ _ (kept_by_level k (suc i) _ h) h)
]

pub register-Keeps : (caller addr : Address) → Keeps IsRegistry (register caller addr)
register-Keeps caller addr = register-IsRegistry caller addr

pub get_info-Keeps : (index : ℕ) → Keeps IsRegistry (get_info index)
unfolding get_info address_at
get_info-Keeps index = search keeps_rules depth 20

pub add_provider_to_group-Keeps :
    (caller : Address) (index g_index : ℕ)
    → Keeps IsRegistry (add_provider_to_group caller index g_index)
unfolding add_provider_to_group get_info address_at open_group
add_provider_to_group-Keeps caller index g_index =
    search (keeps_rules, Keeps-update_group, Keeps-update_info) depth 30

Keeps-raise_level : (k i : RoleMgr → ℕ) → Keeps IsRegistry (modify (λ r. raise_level (k r) (i r) r))
Keeps-raise_level k i = Keeps-modify _ (λ r h. kept_by_level (k r) (i r) r h)

kept_by_totals :
    (ntime g_index start end size : ℕ) (sprice : ℤ) (r : RoleMgr)
    → IsRegistry r
    → IsRegistry (book_totals ntime g_index start end size sprice r)
unfolding book_totals
kept_by_totals ntime g_index start end size sprice r h = kept_by_group g_index _ r h

Keeps-book_totals :
    (ntime g_index start end size : ℕ) (sprice : ℤ)
    → Keeps IsRegistry (modify (book_totals ntime g_index start end size sprice))
Keeps-book_totals ntime g_index start end size sprice =
    Keeps-modify _ (kept_by_totals ntime g_index start end size sprice)

Keeps-last_mint : (ntime : ℕ) → Keeps IsRegistry (modify (λ q. record q { last_mint = ntime }))
Keeps-last_mint ntime = Keeps-modify _ (λ r h. h)

Keeps-ends :
    (end size : ℕ) (sprice : ℤ)
    → Keeps IsRegistry (
        modify (λ r. record r {
          sub_p_map = add_at end sprice r.sub_p_map;
          sub_s_map = add_at end (pos size) r.sub_s_map;
        }))
Keeps-ends end size sprice = Keeps-modify _ (λ r h. h)

pub mint_order-Keeps :
    (now g_index start end size : ℕ) (sprice : ℤ)
    → Keeps IsRegistry (mint_order now g_index start end size sprice)
unfolding mint_order reward_for
mint_order-Keeps now g_index start end size sprice =
    search (keeps_rules, Keeps-ends, Keeps-book_totals, Keeps-last_mint, Keeps-raise_level) depth 40
