-- ===== src/Client.antt =====
-- client/main.go and server/cmd/erc.go: a client that makes a key, and a token for it. The connection
-- carries each call to the node as it is.
pub mod Runs
pub mod Owning
mod Tests
use mefs_go_settlement.Base.{
  ℕ, List, Option, some, none, ℤ, M, pure, or_throw, modify, ◌>>=◌, ◌>>◌, library_error,
}
use mefs_go_settlement.Utils.Key.{Address, Crypto, to_address}
use mefs_go_settlement.Node.{Server, Transaction, little_endian, create_erc_token, serve_all}
use mefs_go_settlement.Node.Queries.{ask, nonce_of, balance_of_owner}

-- `GenerateKey` of crypto/ecdsa on the curve of btcec, from the random bytes, with the serialised secret
-- and public keys; and `Sign` of go-ethereum's secp256k1, with the message first. `none` is an error.
pub record Signer : Type 0 where
  pub generate : List ℕ → Option (List ℕ × List ℕ)
  pub sign : List ℕ → List ℕ → Option (List ℕ)

-- `Key`
pub record Key : Type 0 where
  pub secret_key : List ℕ
  pub pub_key : List ℕ

-- `GenerateKey`
unfoldable pub generate_key : Signer → (rand : List ℕ) → Option Key
generate_key g rand = elim (g.generate rand) [
  | none ↦ none
  | some (sk, pk) ↦ some (record { secret_key = sk; pub_key = pk })
]

-- `Sign`, whose secret key comes first.
unfoldable pub sign : Signer → (sk msg : List ℕ) → Option (List ℕ)
sign g sk msg = g.sign msg sk

-- The command `create`, with the random bytes that it draws. `others` are the transactions that
-- the node serves after it has answered the first call.
unfoldable pub create :
    Crypto → Signer → (rand : List ℕ) (others : List Transaction) → M Server Address
unfolding sign generate_key
create c g rand others = do
  k ← or_throw (generate_key g rand) library_error
  let u_addr = to_address c k.pub_key
  uid ← ask (nonce_of u_addr)
  modify (serve_all c others)
  sig ← or_throw (sign g k.secret_key (c.sum256 (little_endian 8 uid))) library_error
  create_erc_token c uid sig u_addr

-- `main`: the address of the token, and the balance that the client has of it. `others` and `later` are
-- the transactions that the node serves between the first call and the second, and between the
-- second and the third.
unfoldable pub run :
    Crypto → Signer → (rand : List ℕ) (others later : List Transaction) → M Server (Address × ℤ)
unfolding sign generate_key
run c g rand others later = do
  k ← or_throw (generate_key g rand) library_error
  let u_addr = to_address c k.pub_key
  uid ← ask (nonce_of u_addr)
  modify (serve_all c others)
  sig ← or_throw (sign g k.secret_key (c.sum256 (little_endian 8 uid))) library_error
  addr ← create_erc_token c uid sig u_addr
  modify (serve_all c later)
  bal ← ask (balance_of_owner addr u_addr)
  pure (addr, bal)
