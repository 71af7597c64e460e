-- ===== src/Tests/SdkExamples.antt =====
-- The theorems on the frontend SDK at concrete inputs: a wallet whose signatures are the hashes signed.
use substrate_evm_account_ma.Prelude.{
  ℕ, Bytes, some, none, ◌≡◌, ◌≢◌, ◌⊎◌, ◌∷◌, [], ◌++◌, replicate, take, refl, ap, sym, ◌∙◌, arith,
  length, false, bytes_eq, bytes_eq_iff, Bool, true, false, if◌then◌else◌, as_bytes,
}
use mathlib.Core.Option.{some-injective}
use substrate_evm_account_ma.Eip712.Binding.{IsDomain}
use substrate_evm_account_ma.Eip712.Standard.{IsAbi}
use substrate_evm_account_ma.Encode.Laws.{value}
use substrate_evm_account_ma.Host.{Host}
use substrate_evm_account_ma.Host.Laws.{Collision}
use substrate_evm_account_ma.Pallet.Frame.{Config}
use substrate_evm_account_ma.Pallet.Message.{eip712_domain}
use substrate_evm_account_ma.Pallet.Types.{Call}
use substrate_evm_account_ma.Pallet.Validate.{validate_unsigned}
use substrate_evm_account_ma.Pallet.Validate.Accept.{accepted}
use substrate_evm_account_ma.Pallet.Verdict.{accept}
use substrate_evm_account_ma.Runtime.{runtime_config, ss58_prefix}
use substrate_evm_account_ma.Runtime.Authority.{IsKeyed, scalar}
use substrate_evm_account_ma.Sdk.{
  ApiPromise, Client, MappingAccount, SentCall, default_prefix, default_message,
  get_mapping_account, sign_and_send_evm, create_eip712_domain, create_substrate_call,
  ether_address_to_compressed_pubkey,
}
use substrate_evm_account_ma.Sdk.Callback.{
  SubmittableResult, in_block, invalid, settles, callback, failed_error, outcome, first_in_block,
  settles-first_in_block, rejected, rejected_as_invalid,
}
use substrate_evm_account_ma.Sdk.Laws.{IsApi, received, sent_call_accepted}
use substrate_evm_account_ma.Sdk.Signing.{IsWallet, digest, chain_data}
use substrate_evm_account_ma.Sdk.Prefix.{prefix_inputs}
use substrate_evm_account_ma.Sdk.Refused.{NotAccepted, IsForged, IsCongruent, other_prefix_refused}
use substrate_evm_account_ma.Tests.NodeExamples.{library, rich}
use substrate_evm_account_ma.Tests.StandardExamples.{abi_host, abi_host-IsAbi}
use substrate_evm_account_ma.Tests.ToyFrame.{frame, frame-IsSaturating}
use substrate_evm_account_ma.Tests.ToyHost.{host-IsSs58}
use substrate_evm_account_ma.Tests.ToyWords.{length-bytes_le}

abbrev key : Bytes
key = replicate 33 2

-- A signature is the hash that was signed, with the one key.
abbrev wallet_host : Host
wallet_host = record abi_host {
  secp256k1_ecdsa_recover_compressed =
      λ signature hash. if bytes_eq signature hash then some key else none;
}

abbrev client : Client
client = record {
  sign_message = λ msg. some (replicate 65 1);
  sign_typed_data = λ d. some (digest wallet_host d);
  hash_message = λ msg. wallet_host.keccak_256 msg;
  recover_public_key = λ hash signature. key ++ replicate 32 0;
  secp256k1_compress = take 33;
  blake2_as_u8a = wallet_host.blake2_256;
  encode_address = wallet_host.to_ss58check_with_version;
  u256_to_number = λ n. some (value n);
  u64_to_number = λ n. some n;
}

recovers_itself :
    (hash : Bytes) → wallet_host.secp256k1_ecdsa_recover_compressed hash hash ≡ some key
recovers_itself hash = rw ((bytes_eq_iff hash hash).1 refl) refl

key_found : (b : Bool) (found : Bytes) → (if b then some key else none) ≡ some found → b ≡ true
key_found true found e = refl
key_found false found e = cc

same_hash :
    (signature hash found : Bytes)
    → wallet_host.secp256k1_ecdsa_recover_compressed signature hash ≡ some found
    → signature ≡ hash
same_hash signature hash found e =
    (bytes_eq_iff signature hash).0 (key_found (bytes_eq signature hash) found e)

wallet_host-IsKeyed : IsKeyed wallet_host
wallet_host-IsKeyed = record {
  length-blake2_256 = λ x. length-bytes_le 32 (length x);
  account_id32_decode_lem = λ x e. refl;
  recover_scalar = λ signature hash hash' found e e'.
      ap scalar (sym (same_hash signature hash found e) ∙ same_hash signature hash' found e');
}

client-IsWallet : IsWallet wallet_host client key
client-IsWallet = record {
  signs_messages = λ msg sign e. refl;
  signs_typed_data = λ d signature e.
      ap (λ s. wallet_host.secp256k1_ecdsa_recover_compressed s (digest wallet_host d))
        (sym (some-injective _ _ e))
      ∙ recovers_itself (digest wallet_host d);
  blake2 = λ x. refl;
  addresses = λ account prefix. refl;
  u256_exact = λ n v e. sym (some-injective (value n) v e);
  u64_exact = λ n v e. sym (some-injective n v e);
}

abbrev config : Config ℕ ℕ ℕ
config = runtime_config wallet_host library

abbrev api : ApiPromise
api = record {
  eip712_name = config.eip712_name;
  eip712_version = config.eip712_version;
  eip712_chain_id = config.eip712_chain_id;
  eip712_verifying_contract_address = config.eip712_verifying_contract_address;
  account_nonce = λ address. some 0;
}

api-IsApi : IsApi wallet_host config rich api
api-IsApi = record {
  name = refl;
  version = refl;
  chain_id = refl;
  verifying_contract = refl;
  account_nonce = λ account prefix n e. sym (some-injective 0 n e);
}

wallet_host-IsAbi : IsAbi wallet_host
wallet_host-IsAbi = record {
  keccak_256-IsHash = abi_host-IsAbi.keccak_256-IsHash;
  abi_encode_words = abi_host-IsAbi.abi_encode_words;
  u256_from_bytes-IsU256 = abi_host-IsAbi.u256_from_bytes-IsU256;
  u256_from_bytes_word = abi_host-IsAbi.u256_from_bytes_word;
  u256_from_u64-IsU256 = abi_host-IsAbi.u256_from_u64-IsU256;
  u256_from_u64_value = abi_host-IsAbi.u256_from_u64_value;
  type_hash = abi_host-IsAbi.type_hash;
  type_hash_with_salt = abi_host-IsAbi.type_hash_with_salt;
}

-- The account with a prefix, and its call 9.
abbrev account : ℕ → MappingAccount
account prefix = record {
  compressed_pubkey = key;
  address = wallet_host.to_ss58check_with_version (wallet_host.blake2_256 key) prefix;
}

abbrev sent : ℕ → SentCall
sent prefix = record {
  address = (account prefix).address;
  call_data = 9 ∷ [];
  nonce = 0;
  signature =
      digest wallet_host
        (chain_data client api (value api.eip712_chain_id) (account prefix).address (9 ∷ []) 0);
  tip = none;
}

account_made :
    (prefix : ℕ) → get_mapping_account client prefix default_message ≡ some (account prefix)
unfolding get_mapping_account ether_address_to_compressed_pubkey
account_made prefix = refl

call_sent :
    (prefix : ℕ) → sign_and_send_evm client (9 ∷ []) api (account prefix) ≡ some (sent prefix)
unfolding sign_and_send_evm create_substrate_call create_eip712_domain
call_sent prefix = refl

wallet_host-IsDomain : IsDomain (eip712_domain wallet_host config)
wallet_host-IsDomain = record { chain_id_fits = omega arith; contract_fits = refl; salt_fits = tt }

sent_call_accepted_example :
    ((sent 42).address ≡ wallet_host.to_ss58check_with_version (wallet_host.blake2_256 key) 42)
    × ((p : ℕ) × (validate_unsigned wallet_host frame config rich
            (Call.meta_call (received wallet_host library frame client key 9 (sent 42)))
          ≡ accept (
              accepted wallet_host frame config
                (received wallet_host library frame client key 9 (sent 42))
                p)))
sent_call_accepted_example =
    sent_call_accepted wallet_host library frame client key client-IsWallet rich api default_message
      (account 42) 9 (sent 42) wallet_host-IsAbi wallet_host-IsKeyed frame-IsSaturating
      wallet_host-IsDomain api-IsApi (omega arith) (account_made 42) (call_sent 42) (omega arith)
      (omega arith)

defaults_differ : default_prefix ≢ ss58_prefix
defaults_differ e = omega arith

-- With the client's default prefix.
other_prefix_refused_example :
    NotAccepted (
      validate_unsigned wallet_host frame config rich
        (Call.meta_call (received wallet_host library frame client key 9 (sent default_prefix))))
    ⊎ (IsForged wallet_host library frame client api key 9 (sent default_prefix)
        ⊎ (IsCongruent wallet_host library frame client api key 9 default_prefix
              (sent default_prefix)
            ⊎ Collision wallet_host (
                prefix_inputs wallet_host library frame client api
                  (wallet_host.blake2_256 key)
                  9
                  0
                  default_prefix
                  ss58_prefix)))
other_prefix_refused_example =
    other_prefix_refused wallet_host library frame client api key 9 wallet_host-IsAbi
      wallet_host-IsKeyed host-IsSs58 frame-IsSaturating client-IsWallet wallet_host-IsDomain
      default_prefix rich default_message (account default_prefix) (sent default_prefix)
      defaults_differ api-IsApi (omega arith) (account_made default_prefix)
      (call_sent default_prefix)

-- A result that says the call is invalid, and one in a block where the call failed with the error 3.
abbrev invalid_result : SubmittableResult ℕ
invalid_result = record { status = invalid; events = [] }

abbrev failed_result : SubmittableResult ℕ
failed_result = record {
  status = in_block;
  events =
      record { section = as_bytes "system"; method = as_bytes "ExtrinsicFailed"; data0 = some 3 }
      ∷ [];
}

settles-first_in_block_example :
    settles false (invalid_result ∷ failed_result ∷ [])
    ≡ outcome (first_in_block (invalid_result ∷ failed_result ∷ []))
settles-first_in_block_example = settles-first_in_block (invalid_result ∷ failed_result ∷ [])

-- It is rejected with the error; with `unsub`, as invalid; and with the first result alone, never.
failure_settles : settles false (invalid_result ∷ failed_result ∷ []) ≡ some (rejected 3)
unfolding settles callback failed_error bytes_eq
failure_settles = refl

invalid_settles : settles true (invalid_result ∷ failed_result ∷ []) ≡ some rejected_as_invalid
unfolding settles callback
invalid_settles = refl

invalid_hangs : settles false (invalid_result ∷ []) ≡ none
unfolding settles callback
invalid_hangs = refl
