-- ===== src/Keys.antt =====
-- The key of a role and a token together: `multiKey` of server/contract/fs.go, lines 150 to 153.
use mefs_go_settlement.Base.{ℕ, ◌≡◌, ◌↔◌, Bool, true, ◌&&◌, ◌==◌, arith, MapKey}

pub record MultiKey : Type 0 where
  pub role_index : ℕ
  pub token_index : ℕ

abbrev pub key : ℕ → ℕ → MultiKey
key role_index token_index = record { role_index = role_index; token_index = token_index }

abbrev pub multi_key_beq : MultiKey → MultiKey → Bool
multi_key_beq a b = a.role_index == b.role_index && a.token_index == b.token_index

pub multi_key_beq_iff : (a b : MultiKey) → (multi_key_beq a b ≡ true) ↔ (a ≡ b)
multi_key_beq_iff a b = ground arith

instance abbrev pub multi_key_eq : MapKey MultiKey
multi_key_eq = record { beq = multi_key_beq; beq_iff = multi_key_beq_iff }
