-- ===== src/Role/Mint.antt =====
-- server/contract/role.go, lines 796 to 886: what `AddOrder` issues for an order in the first token.
use mefs_go_settlement.Base.{
  ℕ, zero, suc, ◌-◌, ◌*◌, ◌/◌, ltb, add64, sub64, if◌then◌else◌, length, get_elem?, Option, none,
  some, ℤ, pos, ◌+ℤ◌, ◌-ℤ◌, ◌*ℤ◌, ◌/ℤ◌, ltb_ℤ, leb_ℤ, Dict, nat_eq, lookup, insert, or_zero, M,
  pure, gets, read_or_crash, modify, ◌>>=◌, ◌>>◌,
}
use mefs_go_settlement.Role.{RoleMgr}
use mefs_go_settlement.Role.Groups.{update_group}

abbrev pub day : ℕ
day = 86400

abbrev pub add_at : (end : ℕ) (amount : ℤ) → Dict ℕ ℤ → Dict ℕ ℤ
add_at end amount m = insert end (or_zero (lookup end m) +ℤ amount) m

-- The time up to which an order settles: the present, or a day after the last settlement if that is
-- earlier.
unfoldable pub mint_until : (now last_mint : ℕ) → ℕ
mint_until now last_mint = if ltb day (sub64 now last_mint) then add64 last_mint day else now

-- The midnight between the last settlement and this one.
unfoldable pub midnight : (ntime last_mint : ℕ) → Option ℕ
midnight ntime last_mint =
    if ltb (last_mint / day) (ntime / day) then some (ntime / day * day) else none

-- What is taken off at midnight: the price and the size of the orders that ended then.
abbrev pub ended : Option ℕ → Dict ℕ ℤ → ℤ
ended none m = pos 0
ended (some mid) m = or_zero (lookup mid m)

abbrev pub since : Option ℕ → (ntime : ℕ) → ℕ
since none ntime = 0
since (some mid) ntime = sub64 ntime mid

-- What has been paid for all open orders since the last settlement.
unfoldable pub paid_until : (ntime : ℕ) → RoleMgr → ℤ
unfolding midnight
paid_until ntime r =
    let mid = midnight ntime r.last_mint in
    r.price *ℤ pos (sub64 ntime r.last_mint) -ℤ ended mid r.sub_p_map *ℤ pos (since mid ntime)

-- Everything up to the test of what was paid.
unfoldable pub book_totals : (ntime g_index start end size : ℕ) (sprice : ℤ) → RoleMgr → RoleMgr
unfolding paid_until midnight update_group
book_totals ntime g_index start end size sprice r =
    let mid = midnight ntime r.last_mint in
    let span = pos (sub64 end start) in
    let r' =
      update_group g_index (λ g. record g { size = g.size +ℤ pos size; price = g.price +ℤ sprice })
        r in
    record r' {
      total_paid = r'.total_paid +ℤ paid_until ntime r;
      space_time = r'.space_time +ℤ pos size *ℤ span;
      total_pay = r'.total_pay +ℤ sprice *ℤ span;
      size = r'.size -ℤ ended mid r.sub_s_map +ℤ pos size;
      price = r'.price -ℤ ended mid r.sub_p_map +ℤ sprice;
    }

-- The loop that raises the level of issuance, from level `i` on, with `k` levels left. It divides
-- `space_time` itself.
unfoldable pub raise_level : (k i : ℕ) → RoleMgr → RoleMgr
raise_level zero i r = r
raise_level (suc k) i r = elim (get_elem? r.mint i) [
  | none ↦ r
  | some mi ↦
      let esize = if ltb_ℤ (pos mi.size) r.size then r.size else pos mi.size in
      let r' = record r { space_time = r.space_time /ℤ esize } in
      let higher = raise_level k (suc i) (record r' { mint_level = i }) in
      if leb_ℤ (pos mi.duration) r'.space_time then higher else r'
]

unfoldable pub reward_of : (paid : ℤ) (ratio : ℕ) → ℤ
reward_of paid ratio = paid *ℤ pos ratio /ℤ pos 100

-- The end of the settlement: the reward that is to be sent to the pool, if there is any, and the time
-- to which `lastMint` is then set.
unfoldable pub reward_for : (ntime : ℕ) (paid : ℤ) → M RoleMgr (Option ℤ × ℕ)
unfolding raise_level reward_of
reward_for ntime paid =
    if leb_ℤ paid (pos 0)
    then (do modify (λ q. record q { last_mint = ntime }); pure (none, ntime))
    else (do
      modify (λ q. raise_level (length q.mint - suc q.mint_level) (suc q.mint_level) q)
      mi ← read_or_crash (λ q. get_elem? q.mint q.mint_level)
      pure (some (reward_of paid mi.ratio), ntime))

-- The settlement of an order in the first token, at time `now`.
unfoldable pub mint_order : (now g_index start end size : ℕ) (sprice : ℤ) → M RoleMgr (Option ℤ × ℕ)
unfolding book_totals mint_until reward_for
mint_order now g_index start end size sprice = do
  modify (λ r. record r {
    sub_p_map = add_at end sprice r.sub_p_map;
    sub_s_map = add_at end (pos size) r.sub_s_map;
  })
  ntime ← gets (λ r. mint_until now r.last_mint)
  paid ← gets (paid_until ntime)
  modify (book_totals ntime g_index start end size sprice)
  reward_for ntime paid
