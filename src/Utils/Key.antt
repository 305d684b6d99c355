-- ===== src/Utils/Key.antt =====
-- utils/key.go: addresses, and the addresses of contracts. An address, an array of 20 bytes, is the
-- number that its bytes spell; Go only compares addresses and hashes their bytes.
use mefs_go_settlement.Base.{
  ℕ, zero, suc, ◌+◌, ◌-◌, ◌*◌, ◌/◌, ◌%◌, ltb, ◌==◌, if◌then◌else◌, List, [], ◌∷◌, ◌++◌, Option,
  none, some, Bool, false, length, drop,
}

abbrev pub Address : Type 0
Address = ℕ

abbrev pub address_length : ℕ
address_length = 20

abbrev pub nil_address : Address
nil_address = 0

-- The number that bytes spell, the most significant first.
unfoldable pub number : ℕ → List ℕ → ℕ
number acc [] = acc
number acc (b ∷ bs) = number (acc * 256 + b) bs

-- The last `n` bytes of a number, the most significant first.
unfoldable pub bytes : ℕ → ℕ → List ℕ
bytes zero a = []
bytes (suc n) a = bytes n (a / 256) ++ (a % 256) ∷ []

-- `SetBytes` on a zero address: the last 20 bytes, or all of them behind zeros.
unfoldable pub bytes_to_address : List ℕ → Address
unfolding number
bytes_to_address b =
    number 0 (if ltb address_length (length b) then drop (length b - address_length) b else b)

-- The hashes of github.com/minio/blake2b-simd, and `RecoverPubkey` of go-ethereum's secp256k1, with
-- the message first; `none` is its error.
pub record Crypto : Type 0 where
  pub sum256 : List ℕ → List ℕ
  pub sum512 : List ℕ → List ℕ
  pub recover_pubkey : List ℕ → List ℕ → Option (List ℕ)

module _ (c : Crypto) where
  unfoldable pub to_address : List ℕ → Address
  unfolding bytes_to_address
  to_address pk =
      let body = if length pk == 65 then drop 1 pk else pk in
      bytes_to_address (drop 12 (c.sum256 body))

  unfoldable pub get_contract_address : Address → List ℕ → Address
  unfolding to_address bytes
  get_contract_address addr method = to_address (c.sum512 (bytes address_length addr ++ method))

  unfoldable pub verify : Address → List ℕ → List ℕ → Bool
  unfolding to_address
  verify addr msg signature = elim (c.recover_pubkey msg signature) [
    | none ↦ false
    | some pk ↦ addr == to_address pk
  ]
