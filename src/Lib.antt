-- ===== src/Lib.antt =====
-- EVM account mapping: accounts of Ethereum-style wallets call a Substrate chain by meta calls that
-- they sign as EIP-712 messages.
--
-- The pallet (pallets/evm_account_mapping/src) takes an unsigned extrinsic `meta_call`. Before the
-- chain executes it, `validate_unsigned` recovers the key of the signature over the message hash,
-- converts the key to an account and checks it, the nonce, the balance and the priority. `meta_call`
-- then takes the service fee, raises the nonce, takes the fee of the inner call, dispatches it for
-- the account and settles the fee. The runtime (runtime/src) configures the pallet, and the node
-- (node/src) runs the chain.
--
-- * Encode models encode.rs of the pallet: `SolidityDataType`, `pack` and `encode_packed` by their
--   own names. Eip712 models eip712.rs: `EIP712Domain` is `Eip712Domain`, with `separator`.
--   Eip712/Standard has the hashes as EIP-712 writes them, which the code's are compared with.
-- * Account models the two `AddressConversion`s of lib.rs of the pallet, and Pallet/Message its
--   `eip712_message_hash`.
-- * Pallet/Types and Pallet/Frame model the pallet's call, events, errors, storage and `Config`.
--   Pallet/Validate is `validate_unsigned`, in the parts `check_signer`, `check_nonce`,
--   `check_payment` and `priority`; Pallet/MetaCall is `meta_call`, in the parts `pay_service_fee`,
--   `bump_nonce` and `charge_and_dispatch`. Pallet/Verdict and Pallet/Exec are their results.
-- * Pallet/Weights models weights.rs of the pallet, Pallet/Benchmark its benchmarking.rs and Mock its
--   mock.rs, with `run_to_block`, `DealWithFees` and the test runtime's configuration of the pallet.
--   Mock/Scenario models tests.rs: each test is a function that returns or panics.
-- * Chain has the sequences of extrinsics that the chain executes. Chain/Replay and Chain/Conflict are
--   about what is executed at most once, Chain/Progress and Chain/Queue about what is executed at
--   all, Chain/Later about a call that waits, Chain/Tip about a tip that its signer did not sign, and
--   Chain/Refinement about the nonces.
-- * Runtime models the constants and the pallet's configuration of runtime/src/lib.rs, and
--   Runtime/Pallets its other pallets and checks; Runtime/Api and Runtime/Benches are its runtime
--   APIs. Runtime/Authority and Runtime/Elsewhere are about keys and the reach of a signature.
-- * Node/ChainSpec models node/src/chain_spec.rs and `load_spec` of node/src/command.rs, Node/Command
--   the subcommands of node/src/command.rs and node/src/cli.rs, and Node/CliInfo the texts of the
--   former; Node/Extrinsic and Node/Service model
--   node/src/service.rs, over the steps of Node/Startup and the libraries of Node/Substrate;
--   Node/Benchmarking models node/src/benchmarking.rs and Node/Rpc node/src/rpc.rs.
-- * Sdk models frontend-sdk/src/index.ts: how a client maps an account, signs a meta call and sends it,
--   with the functions by their own names but `create_typed_data`, which is
--   `createEip712StructedDataSubstrateCall`. Sdk/Signing is about the signature, Sdk/Prefix and
--   Sdk/Refused about the prefix of the address; Sdk/Callback models what settles a call's promise.
-- * Prelude has the shared names and lemmas, and Tests the stand-ins and the examples.
--
-- Code outside the repository is a parameter: the host functions and codecs (Host), FRAME and the
-- other pallets (Pallet/Frame), the storage layer around a call (Chain), what the runtime's
-- configuration and its APIs call (Runtime and Runtime/Api), the balances and blocks of the tests
-- (Mock), the weights of the database (Pallet/Weights), and the libraries of the node (Node/Substrate,
-- Node/Extrinsic, Node/Benchmarking, Node/Rpc, Node/ChainSpec and Node/Command), and a client's wallet
-- and what it reads of the chain (Sdk). What is assumed of them is in Host/Laws, Pallet/Frame/Laws,
-- Account/Laws, Runtime/Authority and the definitions named Is..., with instances in Tests.
--
-- Bytes are natural numbers, a `U256` is its four limbs, and balances are `u128`s that saturate
-- where the source does. A nonce is a `u64` and wraps as in a release build; `usize` is that of
-- wasm32. A panic is a value. Two functions have fuel: the search `power_at_least` has the 32 powers
-- that a `u32` can hold, and the loop `run_while` ends with more fuel than there are blocks to go.
-- A runner of the command line runs its closure, and the future that this returns, to the end; a node
-- that is started runs on until a signal or until an essential task fails. A benchmark that builds
-- extrinsics runs the node's builders as often as the library asks.
--
-- Not modelled: the configurations of the pallets other than by their numbers, which are types of
-- FRAME, the build scripts, the SDK's `signAndSend`, the demo and the scripts of the docs.
pub mod Prelude
pub mod Encode
pub mod Host
pub mod Eip712
pub mod Account
pub mod Pallet
pub mod Chain
pub mod Runtime
pub mod Sdk
pub mod Mock
pub mod Node
mod Tests
