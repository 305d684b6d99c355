-- ===== src/Client/Runs.antt =====
-- What a client gets from the node (client/main.go, server/cmd/erc.go).
use mefs_go_settlement.Base.{
  ℕ, ◌≡◌, refl, arith, List, some, nat_eq, lookup, lookup-insert_self, ok, resume, methods, true,
}
use mefs_go_settlement.Utils.Key.{Address, Crypto, to_address, verify, get_contract_address}
use mefs_go_settlement.Erc.{ErcToken, new_token, balance_of, initial_supply}
use mefs_go_settlement.World.{find_erc, on_erc, erc_token}
use mefs_go_settlement.Node.{
  Server, Transaction, serve_all, get_nonce, little_endian, create_erc_token, token_method,
  authorise, get_and_inc_nonce, count_call, on_world, new_erc_token,
}
use mefs_go_settlement.Node.Queries.{ask, balance_of_owner, erc_view}
use mefs_go_settlement.Node.Others.{ByOthers, serve_all_others}
use mefs_go_settlement.Client.Owning.{AllApart, serve_all-Has, new_token-HasToken}
use mefs_go_settlement.Client.{Signer, Key, create, run, sign, generate_key}

-- ## The node

module _ (c : Crypto) (uid : ℕ) (sig : List ℕ) (caller : Address) (s : Server) where
  abbrev made : Address
  made = get_contract_address c caller token_method

  authorise_ok :
      get_nonce caller s.node ≡ uid
      → verify c caller (c.sum256 (little_endian 8 uid)) sig ≡ true
      → (authorise c uid sig caller s).0 ≡ ok tt
  unfolding authorise get_and_inc_nonce methods
  authorise_ok fresh signed = ground (arith, fresh, signed)

  create_ok :
      (authorise c uid sig caller (count_call s).1).0 ≡ ok tt
      → ((create_erc_token c uid sig caller s).0 ≡ ok made)
        × (lookup made (create_erc_token c uid sig caller s).1.node.erc_map ≡ some made)
        × (find_erc made (create_erc_token c uid sig caller s).1.world
            ≡ some (new_token made caller))
  unfolding create_erc_token on_world new_erc_token count_call find_erc methods resume
  create_ok done = rw done (
    refl,
    lookup-insert_self made made (authorise c uid sig caller (count_call s).1).1.node.erc_map,
    rw
        (lookup-insert_self made (erc_token (new_token made caller))
          (authorise c uid sig caller (count_call s).1).1.world.objects)
        refl,
  )

balance_found :
    (a owner : Address) (e : ErcToken) (s : Server)
    → lookup a s.node.erc_map ≡ some a
    → find_erc a s.world ≡ some e
    → (ask (balance_of_owner a owner) s).0 ≡ ok (balance_of owner e)
unfolding ask erc_view on_world on_erc methods resume
balance_found a owner e s known found = rw known (rw (found, on_erc) refl)

-- ## The client

-- The random bytes give the key pair, and it signs: what `Sign` returns for a hash is a signature from which `RecoverPubkey` gets the
-- public key.
pub record Signs (c : Crypto) (g : Signer) (rand : List ℕ) (k : Key) : Type 0 where
  pub generated : generate_key g rand ≡ some k
  pub signature : List ℕ → List ℕ
  pub signed : (m : List ℕ) → g.sign (c.sum256 m) k.secret_key ≡ some (signature m)
  pub recovered : (m : List ℕ) → c.recover_pubkey (c.sum256 m) (signature m) ≡ some k.pub_key

module _ (c : Crypto) (g : Signer) (rand : List ℕ) (k : Key) (signs : Signs c g rand k)
    (others : List Transaction) (s : Server)
    (alone : ByOthers (to_address c k.pub_key) others) where
  abbrev u_addr : Address
  u_addr = to_address c k.pub_key

  abbrev uid : ℕ
  uid = get_nonce u_addr s.node

  abbrev sig : List ℕ
  sig = signs.signature (little_endian 8 uid)

  abbrev served : Server
  served = serve_all c others s

  verified : verify c u_addr (c.sum256 (little_endian 8 uid)) sig ≡ true
  unfolding verify
  verified = rw (signs.recovered (little_endian 8 uid), verify) (ground arith)

  accepted : (authorise c uid sig u_addr (count_call served).1).0 ≡ ok tt
  accepted =
      authorise_ok c uid sig u_addr (count_call served).1
        (unfold count_call methods get_nonce in serve_all_others c u_addr others s alone) verified

  create_is : create c g rand others s ≡ create_erc_token c uid sig u_addr served
  unfolding create sign ask methods resume
  create_is = rw signs.generated (rw (signs.signed (little_endian 8 uid)) refl)

  -- The command `create` succeeds, whatever transactions of others the node serves after it has
  -- answered the first call, where the random bytes give a key pair that signs: it returns the address
  -- of the token, and what the node then has there is a new token whose whole supply is the client's.
  pub create_makes_token :
      let local = get_contract_address c u_addr token_method in
      ((create c g rand others s).0 ≡ ok local)
      × (find_erc local (create c g rand others s).1.world ≡ some (new_token local u_addr))
  create_makes_token =
      let made = create_ok c uid sig u_addr served accepted in rw create_is (made.0, made.2)

  -- The server when it has created the token.
  abbrev created : Server
  created = (create_erc_token c uid sig u_addr served).1

  abbrev local : Address
  local = get_contract_address c u_addr token_method

  -- The client's `main` succeeds where the random bytes give a key pair that signs, whatever
  -- transactions of others the node serves after it has answered the first call, and whatever transactions
  -- of others, that create tokens at other addresses or call any token of the node, it serves after it has
  -- answered the second: it ends with the address of a token of its own, and the balance that it reads
  -- is the whole initial supply.
  pub run_has_supply :
      (later : List Transaction)
      → AllApart c u_addr local later
      → (run c g rand others later s).0 ≡ ok (local, initial_supply)
  unfolding run sign ask methods resume
  run_has_supply later apart =
      let made = create_ok c uid sig u_addr served accepted in
      let kept =
        serve_all-Has c u_addr local later created apart
          (new_token-HasToken u_addr local created made.1 made.2) in
      let read =
        balance_found local u_addr kept.token (serve_all c later created) kept.known kept.found in
      rw signs.generated
        (rw (signs.signed (little_endian 8 uid)) (rw made.0 (rw read (rw kept.holds.supply refl))))
