-- ===== src/Client/Tests.antt =====
-- A client on a concrete node, with hashes that return their input and signatures that are the signer's
-- key.
use mefs_go_settlement.Base.{◌≡◌, refl, arith, ok, List, ℕ, [], ◌∷◌, some, pos}
use mefs_go_settlement.Utils.Key.{
  Address, Crypto, to_address, bytes_to_address, number, get_contract_address,
}
use mefs_go_settlement.Erc.{initial_supply}
use mefs_go_settlement.Node.{Transaction, to_erc, make_erc, make_role, token_method, transfer_from}
use mefs_go_settlement.Node.Members.{new_server}
use mefs_go_settlement.Node.Others.{ByOthers}
use mefs_go_settlement.Client.{Signer, Key, run, generate_key}
use mefs_go_settlement.Client.Owning.{AllApart}
use mefs_go_settlement.Client.Runs.{Signs, run_has_supply}

abbrev plain : Crypto
plain = record { sum256 = λ m. m; sum512 = λ m. m; recover_pubkey = λ m sig. some sig }

abbrev signer : Signer
signer = record { generate = λ rand. some (rand, rand); sign = λ m sk. some sk }

-- The keys of the addresses 8 and 7.
abbrev eight : List ℕ
eight = 0 ∷ 0 ∷ 0 ∷ 0 ∷ 0 ∷ 0 ∷ 0 ∷ 0 ∷ 0 ∷ 0 ∷ 0 ∷ 0 ∷ 8 ∷ []

abbrev seven : List ℕ
seven = 0 ∷ 0 ∷ 0 ∷ 0 ∷ 0 ∷ 0 ∷ 0 ∷ 0 ∷ 0 ∷ 0 ∷ 0 ∷ 0 ∷ 7 ∷ []

abbrev pair : Key
pair = record { secret_key = eight; pub_key = eight }

eight-lies : to_address plain eight ≡ 8
unfolding to_address bytes_to_address number
eight-lies = refl

pair-Signs : Signs plain signer eight pair
pair-Signs = record {
  generated = unfold generate_key in refl;
  signature = λ m. eight;
  signed = λ m. refl;
  recovered = λ m. refl;
}

abbrev token_at : Address
token_at = get_contract_address plain (to_address plain eight) token_method

-- The address 7 makes a token and a registry meanwhile.
abbrev others : List Transaction
others = make_erc 0 seven 7 ∷ make_role 1 seven 7 7 1 ∷ []

others-ByOthers : ByOthers (to_address plain eight) others
others-ByOthers = rw eight-lies ((λ e. ground (arith, e)), ((λ e. ground (arith, e)), tt))

-- And then makes another token, and asks for some of the client's.
abbrev later : List Transaction
later = make_erc 2 seven 7 ∷ to_erc 3 seven token_at 7 (transfer_from 8 7 (pos 5)) ∷ []

later-AllApart : AllApart plain (to_address plain eight) token_at later
unfolding get_contract_address to_address bytes_to_address number
later-AllApart = ((λ e. ground (arith, e)), ((λ e. ground (arith, e)), tt))

run_has_supply_example :
    (run plain signer eight others later (new_server 5)).0 ≡ ok (token_at, initial_supply)
run_has_supply_example =
    run_has_supply plain signer eight pair pair-Signs others (new_server 5) others-ByOthers later
      later-AllApart
