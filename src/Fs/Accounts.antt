-- ===== src/Fs/Accounts.antt =====
-- The accounts of providers in a group's storage contract, while providers are paid
-- (server/contract/fs.go, lines 115 to 148 and 724 to 785).
use mefs_go_settlement.Base.{
  ℕ, ◌≡◌, ◌⊎◌, refl, sym, subst, arith, [], ◌∷◌, some, Option-cases, inl, inr, Bool-cases, ℤ, pos,
  ◌+ℤ◌, ◌-ℤ◌, ◌*ℤ◌, ◌/ℤ◌, ◌≤ℤ◌, ltb_ℤ, int_laws, Dict, nat_eq, lookup, insert, lookup-insert,
  lookup-insert_self, or_zero, ok, gets, pure, read_or_crash, or_crash, ◌>>=◌, ◌>>◌, modify,
  methods, resume,
}
use mefs_go_settlement.Base.Triple.{Triple, Triple-any, Triple-then}
use mefs_go_settlement.Keys.{MultiKey, multi_key_eq, multi_key_beq}
use mefs_go_settlement.Settlement
use mefs_go_settlement.Settlement.{Settlement}
use mefs_go_settlement.Settlement.Payment.{IsSound}
use mefs_go_settlement.Fs.{FsMgr}
use mefs_go_settlement.Fs.Orders.{set_balance, set_settlement}
use mefs_go_settlement.Fs.Funds.{linear_pay, due_after}
use mefs_go_settlement.Fs.Liability.{obligation}
use mefs_go_settlement.Fs.Liquid.{IsOwing, Owing}
use mefs_go_settlement.Fs.Payable.{Nonneg-insert, Nonneg-lookup}

-- No account has paid more than it holds as earned, or has a negative price.
abbrev pub AllSound : Dict MultiKey Settlement → Type 0
AllSound [] = Unit
AllSound ((k, se) ∷ d) = IsSound se × AllSound d

-- Nothing that the contract owes is negative, and its accounts are sound.
pub record IsFair (f : FsMgr) : Type 0 where
  pub owing : IsOwing f
  pub sound : AllSound f.pro_info

Owing-insert :
    (k : MultiKey) (se : Settlement) (d : Dict MultiKey Settlement)
    → pos 0 ≤ℤ obligation se
    → Owing d
    → Owing (insert k se d)
unfolding insert
Owing-insert k se [] more h = (more, tt)
Owing-insert k se ((j, u) ∷ d) more h = elim (Bool-cases (multi_key_beq j k)) [
  | inl e ↦ rw e (more, h.1)
  | inr e ↦ rw e (h.0, Owing-insert k se d more h.1)
]

-- Where an account is found.
first_or_rest :
    (j k : MultiKey) (u se : Settlement) (d : Dict MultiKey Settlement)
    → lookup k ((j, u) ∷ d) ≡ some se
    → (u ≡ se) ⊎ (lookup k d ≡ some se)
unfolding lookup
first_or_rest j k u se d e = elim (Bool-cases (multi_key_beq j k)) [
  | inl same ↦ inl (ground (arith, same, e))
  | inr other ↦ inr (ground (arith, other, e))
]

pub Owing-lookup :
    (k : MultiKey) (se : Settlement) (d : Dict MultiKey Settlement)
    → lookup k d ≡ some se
    → Owing d
    → pos 0 ≤ℤ obligation se
unfolding lookup
Owing-lookup k se [] e h = absurd (cc e)
Owing-lookup k se ((j, u) ∷ d) e h = elim (first_or_rest j k u se d e) [
  | inl same ↦ subst (λ x. pos 0 ≤ℤ obligation x) same h.0
  | inr other ↦ Owing-lookup k se d other h.1
]

AllSound-insert :
    (k : MultiKey) (se : Settlement) (d : Dict MultiKey Settlement)
    → IsSound se
    → AllSound d
    → AllSound (insert k se d)
unfolding insert
AllSound-insert k se [] more h = (more, tt)
AllSound-insert k se ((j, u) ∷ d) more h = elim (Bool-cases (multi_key_beq j k)) [
  | inl e ↦ rw e (more, h.1)
  | inr e ↦ rw e (h.0, AllSound-insert k se d more h.1)
]

pub AllSound-lookup :
    (k : MultiKey) (se : Settlement) (d : Dict MultiKey Settlement)
    → lookup k d ≡ some se
    → AllSound d
    → IsSound se
unfolding lookup
AllSound-lookup k se [] e h = absurd (cc e)
AllSound-lookup k se ((j, u) ∷ d) e h = elim (first_or_rest j k u se d e) [
  | inl same ↦ subst IsSound same h.0
  | inr other ↦ AllSound-lookup k se d other h.1
]

-- What was put aside for an account, less what has been paid of it at the ends of orders and for repairs.
abbrev pub put_aside : Settlement → ℤ
put_aside se = se.max_pay +ℤ se.manage_pay -ℤ se.end_paid -ℤ se.lost_paid

-- The total that is asked for, and the keepers' share of it or what they have had, are within what was put
-- aside for the account.
abbrev pub Within : (k : MultiKey) (pay : ℤ) → FsMgr → Type 0
Within k pay f =
    (se : Settlement)
    → lookup k f.pro_info ≡ some se
    → (pay +ℤ pay /ℤ pos 100 *ℤ pos 4 ≤ℤ put_aside se) × (pay +ℤ se.linear_paid ≤ℤ put_aside se)

-- What `calc` leaves when it pays.
pub calc_paid :
    (now : ℕ) (pay lost : ℤ) (se : Settlement) (paid : ℤ)
    → (Settlement.calc now pay lost se).0 ≡ ok paid
    → let se' = (Settlement.calc now pay lost se).1 in
      (pos 0 ≤ℤ paid)
      × (se'.has_paid ≡ pay)
      × (se'.linear_paid ≡ se.linear_paid)
      × (put_aside se' ≡ put_aside se)
unfolding Settlement.calc methods
calc_paid now pay lost se paid e = grind (int_laws, e)

-- An account is written.
pub set-IsFair :
    (k : MultiKey) (se : Settlement) (f : FsMgr)
    → pos 0 ≤ℤ obligation se
    → IsSound se
    → IsFair f
    → IsFair (set_settlement k se f)
set-IsFair k se f more sound h = record {
  owing = record {
    balances = h.owing.balances;
    profit = h.owing.profit;
    accounts = Owing-insert k se f.pro_info more h.owing.accounts;
  };
  sound = AllSound-insert k se f.pro_info sound h.sound;
}

-- The account can pay what it has paid, and the keepers' share of that.
abbrev pub Enough : Settlement → Type 0
Enough se = se.has_paid +ℤ se.has_paid /ℤ pos 100 *ℤ pos 4 ≤ℤ put_aside se

-- More profit of the keepers.
profit-IsFair :
    (token : ℕ) (v : ℤ) (f : FsMgr)
    → pos 0 ≤ℤ v
    → IsFair f
    → IsFair (record f { t_acc = insert token v f.t_acc })
profit-IsFair token v f more h = record {
  owing = record {
    balances = h.owing.balances;
    profit = λ t. grind (int_laws, more, h.owing.profit t, lookup-insert token t v f.t_acc);
    accounts = h.owing.accounts;
  };
  sound = h.sound;
}

-- The keepers' share of what is paid.
linear_pay-IsFair :
    (k : MultiKey) (se : Settlement) (f : FsMgr)
    → Enough se
    → IsSound se
    → IsFair f
    → IsFair (linear_pay k.token_index k se f).1
unfolding linear_pay methods
linear_pay-IsFair k se f enough sound h =
    let lpay = se.has_paid /ℤ pos 100 *ℤ pos 4 in
    let rest = lpay -ℤ se.linear_paid in
    let se' = record se { linear_paid = se.linear_paid +ℤ rest } in
    elim (Bool-cases (ltb_ℤ se.linear_paid lpay)) [
      | inr e ↦ rw e h
      | inl e ↦
          let step =
            set-IsFair k se' f (grind (int_laws, enough))
              (record { price_nonneg = sound.price_nonneg; covered = sound.covered }) h in
          rw e (elim (Option-cases (lookup k.token_index f.t_acc)) [
            | inl none_at ↦ rw none_at step
            | inr (acc, at) ↦ rw at (
                profit-IsFair k.token_index (acc +ℤ rest) (set_settlement k se' f)
                  (grind (int_laws, e, at, h.owing.profit k.token_index)) step)
          ])
    ]

-- The balance is what is due.
abbrev pub IsDue : (k : MultiKey) (due : ℤ) → FsMgr → Type 0
IsDue k due f = IsFair f × (or_zero (lookup k f.balance) ≡ due)

pub set_balance-IsDue :
    (k : MultiKey) (v : ℤ) (f : FsMgr) → pos 0 ≤ℤ v → IsFair f → IsDue k v (set_balance k v f)
set_balance-IsDue k v f more h = (
  record {
    owing = record {
      balances = Nonneg-insert k v f.balance more h.owing.balances;
      profit = h.owing.profit;
      accounts = h.owing.accounts;
    };
    sound = h.sound;
  },
  rw (lookup-insert_self k v f.balance) refl,
)

pub due_after-Triple :
    (k : MultiKey) (paid : ℤ)
    → pos 0 ≤ℤ paid
    → Triple
        (λ f. IsFair f × ((se : Settlement) → lookup k f.pro_info ≡ some se → Enough se))
        (due_after k paid)
        (λ due. IsDue k due)
        IsFair
unfolding due_after read_or_crash or_crash ◌>>=◌ resume
due_after-Triple k paid more = record {
  at = λ f (h, enough). elim (Option-cases (lookup k f.pro_info)) [
    | inl e ↦ rw e h
    | inr (se, e) ↦ rw e (
        (Triple-then {P = λ q. q ≡ f} _ _
            (Triple-any _ (λ q is.
              subst (λ x. IsFair (linear_pay k.token_index k se x).1) (sym is)
                (linear_pay-IsFair k se f (enough se e) (AllSound-lookup k se f.pro_info e h.sound)
                  h)))
            rest).at
          f refl)
  ];
}
  where
    rest :
        Triple IsFair
          (gets (λ f. paid +ℤ or_zero (lookup k f.balance))
            >>= (λ due. modify (set_balance k due) >> pure due))
          (λ due. IsDue k due)
          IsFair
    rest = record {
      at = λ f h.
          unfold methods in
          set_balance-IsDue k _ f
            (grind (int_laws, more, Nonneg-lookup k f.balance h.owing.balances)) h;
    }
