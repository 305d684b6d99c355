-- ===== src/Pledge/Calls.antt =====
-- server/contract/pledge.go: the operations of the pool. `self` is its address, `p.local`.
use mefs_go_settlement.Base.{
  ℕ, suc, ◌+◌, ◌==◌, ltb, if◌then◌else◌, not, ◌&&◌, List, [], ◌∷◌, ◌++◌, length, get_elem?, Option,
  none, some, ◌%◌, ◌^◌, ℤ, pos, ◌+ℤ◌, ◌-ℤ◌, ◌*ℤ◌, ◌/ℤ◌, ltb_ℤ, nat_eq, lookup, insert, M, pure,
  gets, or_crash, read_or_crash, read_or_throw, throw_if, modify, ◌>>=◌, ◌>>◌, err_input,
  err_permission, err_res, err_empty,
}
use mefs_go_settlement.Utils.Key.{Address, Crypto, get_contract_address}
use mefs_go_settlement.Keys.{key, multi_key_eq}
use mefs_go_settlement.Pledge.{PledgeMgr, RewardInfo, no_reward}
use mefs_go_settlement.Role.{get_info_addr}
use mefs_go_settlement.World.{
  World, pledge_mgr, get_role_mgr, on_role, on_pledge, store, get_token_balance, send_balance,
  send_balance_from,
}

unfoldable pub new_pledge : (local caller ptoken : Address) (bal : ℤ) → PledgeMgr
new_pledge local caller ptoken bal = record {
  owner = caller;
  local = local;
  token = 1;
  tokens = ptoken ∷ [];
  total_pledge = pos 0;
  amount = [];
  t_info = (0, record { reward_accum = pos 0; last_reward = bal }) ∷ [];
}

abbrev pub pool_method : List ℕ
pool_method = b'P' ∷ b'l' ∷ b'e' ∷ b'd' ∷ b'g' ∷ b'e' ∷ b'P' ∷ b'o' ∷ b'o' ∷ b'l' ∷ []

-- `NewPledgeMgr`
unfoldable pub new_pledge_mgr : Crypto → (caller ptoken : Address) → M World Address
unfolding new_pledge
new_pledge_mgr c caller ptoken = do
  let local = get_contract_address c caller pool_method
  bal ← gets (get_token_balance ptoken local)
  modify (store local (pledge_mgr (new_pledge local caller ptoken bal)))
  pure local

-- The reward of a token for each unit pledged, when the pool holds `bal` of it.
unfoldable pub accum_at : (bal total : ℤ) → RewardInfo → ℤ
accum_at bal total ti =
    let tv = bal -ℤ ti.last_reward in
    if ltb_ℤ (pos 0) tv && ltb_ℤ (pos 0) total
    then ti.reward_accum +ℤ tv /ℤ total
    else ti.reward_accum

abbrev pub or_fresh : RewardInfo → Option RewardInfo → RewardInfo
or_fresh fresh none = fresh
or_fresh fresh (some rew) = rew

-- One token of the loops that settle rewards. `fresh` is the record that a role without one gets.
unfoldable pub settle :
    (index i : ℕ) (bal amount total : ℤ) (ti fresh : RewardInfo) → PledgeMgr → PledgeMgr
unfolding accum_at
settle index i bal amount total ti fresh p =
    let accum = accum_at bal total ti in
    let rew = or_fresh fresh (lookup (key index i) p.amount) in
    record p {
      t_info = insert i (record { reward_accum = accum; last_reward = bal }) p.t_info;
      amount =
          insert (key index i)
            (record {
              reward_accum = accum;
              last_reward = rew.last_reward +ℤ (accum -ℤ rew.reward_accum) *ℤ amount;
            })
            p.amount;
    }

-- The loop of `Pledge`, from the token with index `i` on.
unfoldable pub settle_all :
    (self : Address) (index : ℕ) (amount total : ℤ) (i : ℕ) → List Address → M World (Unit {0})
unfolding settle
settle_all self index amount total i [] = pure tt
settle_all self index amount total i (taddr ∷ ts) = do
  ti ← on_pledge self (read_or_crash (λ p. lookup i p.t_info))
  bal ← gets (get_token_balance taddr self)
  let fresh : RewardInfo = record { reward_accum = ti.reward_accum; last_reward = pos 0 }
  on_pledge self (modify (settle index i bal amount total ti fresh))
  settle_all self index amount total (suc i) ts

-- The loop of `Withdraw`: all tokens for token 0, the one token for another.
unfoldable pub settle_some :
    (self : Address) (index token : ℕ) (amount total : ℤ) (i : ℕ)
    → List Address
    → M World (Unit {0})
unfolding settle
settle_some self index token amount total i [] = pure tt
settle_some self index token amount total i (taddr ∷ ts) =
    (if not (token == 0) && not (token == i) then pure tt else (do
      ti ← on_pledge self (read_or_crash (λ p. lookup i p.t_info))
      bal ← gets (get_token_balance taddr self)
      on_pledge self (modify (settle index i bal amount total ti no_reward))))
    >> settle_some self index token amount total (suc i) ts

-- `p0`, made if there is none.
unfoldable pub meet_pledger : (index : ℕ) (t0 : RewardInfo) → PledgeMgr → PledgeMgr
meet_pledger index t0 p = elim (lookup (key index 0) p.amount) [
  | some rew ↦ p
  | none ↦ record p {
    amount =
        insert (key index 0) (record { reward_accum = t0.reward_accum; last_reward = pos 0 })
          p.amount;
  }
]

-- The end of `Pledge`, where the money has come in.
unfoldable pub book_pledge :
    (index : ℕ) (amount money : ℤ) (t0 p0 : RewardInfo) → PledgeMgr → PledgeMgr
book_pledge index amount money t0 p0 p =
    let held = p0.last_reward +ℤ money in
    record p {
      t_info = insert 0 (record t0 { last_reward = t0.last_reward +ℤ money }) p.t_info;
      amount = insert (key index 0) (record p0 { last_reward = held }) p.amount;
      total_pledge = p.total_pledge -ℤ amount +ℤ held;
    }

-- A field of the map's value, behind a nil dereference.
abbrev pub token_info : ℕ → M PledgeMgr RewardInfo
token_info i = read_or_crash (λ p. lookup i p.t_info)

unfoldable pub pledge : (self caller addr : Address) (index : ℕ) (money : ℤ) → M World (Unit {0})
unfolding settle_all meet_pledger book_pledge
pledge self caller addr index money = do
  owner ← on_pledge self (gets (λ p. p.owner))
  throw_if (not (caller == owner)) err_permission
  throw_if (ltb_ℤ money (pos 0)) err_res
  t0 ← on_pledge self (token_info 0)
  on_pledge self (modify (meet_pledger index t0))
  p0 ← on_pledge self (read_or_crash (λ p. lookup (key index 0) p.amount))
  let amount = p0.last_reward
  total ← on_pledge self (gets (λ p. p.total_pledge))
  tokens ← on_pledge self (gets (λ p. p.tokens))
  settle_all self index amount total 0 tokens
  taddr ← or_crash (get_elem? tokens 0)
  send_balance_from taddr self addr self money
  t0' ← on_pledge self (token_info 0)
  p0' ← on_pledge self (read_or_crash (λ p. lookup (key index 0) p.amount))
  on_pledge self (modify (book_pledge index amount money t0' p0'))

-- What `Withdraw` pays: what is held, less the locked pledge, or the money asked for if that is less.
unfoldable pub payout : (token : ℕ) (held money lock : ℤ) → ℤ
payout token held money lock =
    let rw = if token == 0 then held -ℤ lock else held in
    if ltb_ℤ (pos 0) money && ltb_ℤ money rw then money else rw

unfoldable pub book_payout : (index token : ℕ) (rw : ℤ) → M PledgeMgr (Unit {0})
book_payout index token rw = do
  ti ← token_info token
  modify (λ p. record p {
    t_info = insert token (record ti { last_reward = ti.last_reward -ℤ rw }) p.t_info;
  })
  pi ← read_or_crash (λ p. lookup (key index token) p.amount)
  modify (λ p. record p {
    amount = insert (key index token) (record pi { last_reward = pi.last_reward -ℤ rw }) p.amount;
  })

-- The total, after a withdrawal of the pledged token by a role that had `amount` in it.
unfoldable pub book_total : (index token : ℕ) (amount : ℤ) → M PledgeMgr (Unit {0})
book_total index token amount =
    if token == 0
    then (do
      pi ← read_or_crash (λ p. lookup (key index token) p.amount)
      modify (λ p. record p { total_pledge = p.total_pledge -ℤ amount +ℤ pi.last_reward }))
    else pure tt

unfoldable pub pay_out :
    (self addr : Address) (tokens : List Address) (index token : ℕ) (rw : ℤ) → M World (Unit {0})
unfolding book_payout
pay_out self addr tokens index token rw =
    if ltb_ℤ (pos 0) rw
    then (do
      taddr ← or_crash (get_elem? tokens token)
      send_balance taddr self addr rw
      on_pledge self (book_payout index token rw))
    else pure tt

-- Rewards are settled only while something is pledged.
unfoldable pub settle_if :
    (self : Address) (index token : ℕ) (amount total : ℤ) → List Address → M World (Unit {0})
unfolding settle_some
settle_if self index token amount total tokens =
    if ltb_ℤ (pos 0) total then settle_some self index token amount total 0 tokens else pure tt

unfoldable pub withdraw :
    (self caller : Address) (index token : ℕ) (money lock : ℤ) → M World (Unit {0})
unfolding settle_if payout pay_out book_total
withdraw self caller index token money lock = do
  throw_if (ltb_ℤ money (pos 0)) err_input
  tokens ← on_pledge self (gets (λ p. p.tokens))
  throw_if (ltb (length tokens) token) err_input
  owner ← on_pledge self (gets (λ p. p.owner))
  get_role_mgr owner
  found ← on_role owner (get_info_addr index)
  p0 ← on_pledge self (read_or_throw (λ p. lookup (key index 0) p.amount) err_empty)
  let amount = p0.last_reward
  total ← on_pledge self (gets (λ p. p.total_pledge))
  settle_if self index token amount total tokens
  pi ← on_pledge self (read_or_throw (λ p. lookup (key index token) p.amount) err_empty)
  pay_out self found.1 tokens index token (payout token pi.last_reward money lock)
  on_pledge self (book_total index token amount)

unfoldable pub add_token : (self caller taddr : Address) (token : ℕ) → M World (Unit {0})
add_token self caller taddr token = do
  owner ← on_pledge self (gets (λ p. p.owner))
  throw_if (not (caller == owner)) err_permission
  throw_if (not ((← on_pledge self (gets (λ p. p.token))) == token)) err_input
  bal ← gets (get_token_balance taddr self)
  on_pledge self (
      modify (λ p. record p {
        t_info = insert token (record { reward_accum = pos 0; last_reward = bal }) p.t_info;
        tokens = p.tokens ++ taddr ∷ [];
        token = (token + 1) % 2 ^ 32;
      }))

-- `GetPledge`
unfoldable pub get_pledge : (self : Address) → List Address → World → List ℤ
get_pledge self [] w = []
get_pledge self (taddr ∷ ts) w = get_token_balance taddr self w ∷ get_pledge self ts w

-- One entry of `GetBalance`.
unfoldable pub owed : (index i : ℕ) (bal amount total : ℤ) (ti : RewardInfo) → PledgeMgr → ℤ
unfolding accum_at
owed index i bal amount total ti p =
    let val = accum_at bal total ti in
    elim (lookup (key index i) p.amount) [
      | none ↦ val *ℤ amount
      | some rew ↦ (val -ℤ rew.reward_accum) *ℤ amount +ℤ rew.last_reward
    ]

unfoldable pub owed_all :
    (self : Address) (index : ℕ) (amount : ℤ) (i : ℕ) → List Address → M World (List ℤ)
unfolding owed
owed_all self index amount i [] = pure []
owed_all self index amount i (taddr ∷ ts) = do
  ti ← on_pledge self (token_info i)
  bal ← gets (get_token_balance taddr self)
  val ← on_pledge self (gets (λ p. owed index i bal amount p.total_pledge ti p))
  rest ← owed_all self index amount (suc i) ts
  pure (val ∷ rest)

-- The amounts owed to a role that has pledged; nil for any other.
unfoldable pub owed_to :
    (self : Address) (index : ℕ) → List Address → Option RewardInfo → M World (List ℤ)
unfolding owed_all
owed_to self index tokens none = pure []
owed_to self index tokens (some p0) = owed_all self index p0.last_reward 0 tokens

-- `GetBalance`, with no entry for its nil. The result has a place for each of `p.token` tokens, which
-- are as many as `p.tokens`.
unfoldable pub get_balance : (self : Address) (index : ℕ) → M World (List ℤ)
unfolding owed_to
get_balance self index = do
  tokens ← on_pledge self (gets (λ p. p.tokens))
  p0 ← on_pledge self (gets (λ p. lookup (key index 0) p.amount))
  owed_to self index tokens p0
