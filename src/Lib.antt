-- ===== src/Lib.antt =====
-- The smart contract agent: a node that listens to a bitcoin network for protocol messages, keeps the
-- state of the contracts whose keys it holds, and answers each request with a transaction of its own.
--
-- A transaction of the network reaches `cmd/smartcontractd/node/tx_handler.go`. The inspector
-- (`internal/app/inspector`) looks for a protocol message in its outputs and finds the addresses of
-- its inputs and outputs; the request service (`internal/request`) filters by type and by key; the
-- validator service (`internal/validator`) fetches or creates the contract (`internal/app/state`) and
-- either accepts the request or builds a rejection; the request service runs the handler of the type,
-- whose response message carries the new balances or fields; the response service
-- (`internal/response`) writes that message into the contract and the contract to the store; the
-- broadcaster announces the response. `internal/vote` counts the ballots of a vote.
--
-- Files, and the code they are about:
--   Prelude, Prelude/*       lists, byte strings, outcomes of Go calls, Go's maps
--   Protocol, Protocol/*     `pkg/protocol`: codes, minima, rejection codes, the messages; Codec is
--                            `BaseMessage`, and Codec/* the methods of one message each, with the
--                            interface that they fill and what its laws give; OpReturn is `New`,
--                            with Codes, RoundTrip, Short and Sharing on it; AssetTypes and Forms
--                            are the payloads and the forms, one file each
--   Btcutil, Wire, Wallet    the interfaces that the agent takes from other code
--   TxBuilder/*              `pkg/txbuilder`: Output (outputs and unspent outputs), AddressSet, Plan (`build.go`, up to
--                            the call that signs), and Change on it
--   State/*                  `internal/app/state/contract`: one file per file there
--   Inspector                `internal/app/inspector`, `pkg/txbuilder/utxo_set_builder.go`
--   Request/*                `internal/request`: Transfer (send, exchange), Orders, Formation (what the
--                            issuer sends), Voting, Service
--   Response/*               `internal/response`: Handlers, Service, and Frame on what they leave
--   Validator/*              `internal/validator`: Transfer, Formation, Service; Acceptance and Offers
--                            on what `CheckAndFetch` returns
--   Store                    `internal/app/state/state_service.go`, on a storage and JSON
--   Voting/*                 `internal/vote`: Service, and Tally and Cutoff on it
--   Node, Node/*             `cmd/smartcontractd/node/tx_handler.go`; Steps on one transaction, Replay on
--                            sequences of them, Sends on the services together for a send
--   Ledger/*                 request and response together: what they do to the balances of an asset
--   Issuing/*                request and response together: assets, limits and revisions
--   Spv/*                    `pkg/spvnode`: Action (a call that changes the node's world), Blocks (the files), Service
--                            (`block_service.go`), Handlers, Peer (`node.go`), and Kept on what no message
--                            changes, Chain on headers that follow one another
--   Tests, Tests/*           runs of the model, and the properties at concrete inputs
--
-- How the code is read. A Go string or slice of bytes is a list of byte values, where nil and empty
-- are one. A map is an association list, or nil; a range over it goes in the order of the list. An
-- integer of 64 bits is a natural number, and what the source adds is reduced modulo 2 ^ 64; a
-- subtraction stands behind a test that it does not wrap, or wraps around as in
-- `TxBuilder.Plan.minus`. A `float32` is its bit pattern and the conversions of it are the parameter
-- `Floats`.
-- `Bytes` and `Write` of a message are lists of what they write and read, run by `Protocol.Codec`.
-- The structs of `TypeMapping` are a state that `New` changes, and its result is the code of the struct
-- that it points to. A call returns a value, returns an error or panics (`Outcome`); a validator
-- returns `ok tt` for the OK code and `err (rejected c)` for another. A handler that writes through a
-- pointer returns the new value. The clock is the arguments `now` (seconds) and `nano` (nanoseconds), one
-- reading for each call. Log lines are left out. Loops are structural recursion, so there is no fuel.
--
-- Parameters: addresses and their text (`btcutil`), transactions (`pkg/wire`, a copy of another
-- project's), the wallet, the storage and JSON, and the network's `GetTX`. The inspector takes the
-- reading of a message from a script as a parameter too, which `New` fills. The one law asked of the
-- store, `Node.Replay.IsLawful`, is that a read after a write gives the hashes that were written or
-- what was there; `Store` is the store of the repository, and meets the law where JSON keeps the
-- hashes of the contracts. The SPV node takes its storage, the JSON of a block and the texts of
-- hashes. What a reader of the bytes of a message has, `as_read`, is written out field by field for
-- each type, apart from what its `Bytes` and `Write` do.
--
-- Not modelled: the texts that `String` makes of a message for the log, the scripts and the signing of
-- a transaction, the connection of the SPV node to its peer and its version message, the storages,
-- network, configuration and logging; `pkg/wire` and `pkg/txscript` are copies of another project's
-- packages. The lock that a transaction is handled under is what makes its handling one step here.
pub mod Prelude
pub mod Protocol
pub mod Btcutil
pub mod Wire
pub mod TxBuilder
pub mod State
pub mod Inspector
pub mod Wallet
pub mod Request
pub mod Response
pub mod Validator
pub mod Issuing
pub mod Voting
pub mod Node
pub mod Store
pub mod Spv
pub mod Ledger
mod Tests
