-- ===== src/Lib.antt =====
-- mefs-go-settlement: the settlement contracts of memoio's go-settlement, which keep the tokens, the
-- roles, the pledges and the storage orders of a storage market, and the node that takes
-- transactions for them.
--
-- The parts, from the inside out, and the files that model them:
-- - Base: 64-bit and big integers, Go maps as association lists, and the state-passing monad
--   `M S A = S → Result A × S` of a Go method: `ok`, an error, or a panic; what was written before
--   an error stays written. Base/Keeps has the rules by which a method keeps a property,
--   Base/Triple those for a property of its result, and Base/Total those by which it returns one.
-- - Utils/Key (utils/key.go): addresses and signatures. An address is the number its bytes spell.
--   Utils/Hex has String and HexToAddress; a string is the list of its bytes.
-- - Message (server/message/mes.go): the Serialize methods. A Go slice that is written through is a
--   list with the place that is written next; a slice past the end is a panic.
-- - Settlement (server/contract/fs.go, Settlement): `add`, `sub`, `calc`.
-- - Erc (server/contract/erc20.go): the token; `transfer` is Transfer, `mint_token` MintToken, ....
-- - Fs (server/contract/fs.go, fsMgr): Fs/Orders has AddKeeper, CreateFs, AddOrder and SubOrder,
--   Fs/Repairs AddRepair and SubRepair, Fs/Funds the queries and what Withdraw and ProWithdraw do
--   inside the contract, Fs/Calls NewFsMgr and the calls that move tokens.
-- - Pledge (server/contract/pledge.go): the pool; its calls are in Pledge/Calls.
-- - Role (server/contract/role.go): Role/Groups has registration and groups, Role/Funds the money,
--   Role/Orders the orders and repairs, Role/Mint the reward that AddOrder issues.
-- - World (server/contract/common.go): the table of contracts by address, and the clock. A call
--   of one contract by another is a lookup in the table, and a pointer to a contract its address.
-- - Node (server/impl/node): nonces, signatures and the transactions; Node/Queries has the queries, by
--   the name of what they ask for.
-- - Client (client/main.go, server/cmd/erc.go): the programs that ask the node for a token.
--
-- The proofs about a part stand in its other children, named for what they are about. Each part's
-- concrete runs are in its Tests.
-- - Settlement: Accrual, Payment and Faults.
-- - Erc: Balances, Supply and Solvency; Ledger is an abstract ledger, and Shows, Draws and Refinement
--   compare the token with it.
-- - Fs: Liability is what a contract owes, and Books (orders), Closings (orders that end), Losses
--   (repairs) and Payouts what its methods do to that; Covered, Steps, Sends, Owned and Solvency are
--   about what it holds against that. Met is about the tokens it has met, and History about the calls
--   one after another, among whatever else happens to the table of contracts. Promise is about what
--   GetBalance tells a keeper. Liquid and Liveness are about withdrawals that
--   go through, and Payable, Withdrawals, Accounts and Providers about what is owed after a payment, where
--   nothing that is owed is negative: in the sums of Liability a negative account counts against the others.
--   Kept is about what calls keep of one contract.
-- - Pledge: Shares, Ledger and Bookings are about what the pool owes and the writes of its books; Sound,
--   Rewards, Loops, Written, Meeting, Held and Steps about its state within a call; Deposits, Settling,
--   Payouts and Withdrawals about its calls; Solvency and Receipts have the results. Priced and Additions
--   are about the tokens that are added to it, and History about its calls one after another. A pool is solvent,
--   for the roles that are counted, when its total is the sum of their pledges and it holds, in each of
--   its tokens, at least what it owes to them.
-- - Role: Registry and Members are about the members of a registry, Levels about the loop of the issuance,
--   and Issuance about its totals against the orders.
-- - Node: Members is about the registries of a server, Replay and Others about nonces, Unchanged about
--   queries. World: Kept is about one contract of the table.
-- - Client: Runs is about what the programs get, and Owning about their token meanwhile.
-- - Utils: Bytes is about numbers and their bytes.
-- - Message: Layout is about writing to a buffer, Common, Withdraw and Signed about what is written, and
--   Reading about what is read back.
--
-- How they interact: a transaction of Node tests its nonce and signature and calls the registry of
-- Role or a token of Erc; the registry calls the pool and the storage contract of a group, and these
-- call the token with `send_balance` and `send_balance_from`. The node holds its lock for a whole
-- transaction, so a history is a list of transactions. The clock is constant within a call.
--
-- Bounds and fuel: uint64 arithmetic is `% 2 ^ 64` (`add64`, `sub64`); `*big.Int` is ℤ. The loop of
-- `raise_level` is given as many steps as there are levels above the present one, which is what the
-- source's loop makes; `decimal` prints at most 20 digits, and 2 ^ 64 has 20; `digits` is given as
-- many steps as the number, which has no more bytes.
--
-- Parameters: the hashes and the recovery of a public key, as the record `Crypto`; the generation of keys
-- and signing, as the record `Signer`, of which the theorems about a client assume that a public key is
-- recovered from a signature made with the secret key that belongs to it; and LeftPadBytes of
-- go-ethereum, as `left_pad`, of which the theorems assume what its documentation says.
--
-- Not modelled: the RPC layer, the command line and logs.
pub mod Base
pub mod Utils
pub mod Keys
pub mod Settlement
pub mod Erc
pub mod Fs
pub mod Pledge
pub mod Role
pub mod World
pub mod Message
pub mod Node
pub mod Client
