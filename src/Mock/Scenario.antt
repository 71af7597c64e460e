-- ===== src/Mock/Scenario.antt =====
-- pallets/evm_account_mapping/src/tests.rs: the tests of `meta_call`, of the signed message and of
-- the converters. What the source writes in hexadecimal is written out as bytes; the call,
-- the account and the signature are those of the benchmark.
pub mod Laws
pub mod Passes
use substrate_evm_account_ma.Prelude.{
  ℕ, Option, none, some, Bytes, ◌∷◌, [], ◌++◌, as_bytes, replicate, take, drop, if◌then◌else◌,
  bytes_eq, zero, List,
}
use substrate_evm_account_ma.Prelude.Checked.{Checked, returns, panics, expect, ◌>>=◌, ◌>>◌}
use substrate_evm_account_ma.Account.{
  AccountId, evm_address, evm_transparent_convert, slice_from, copy_from_slice,
  substrate_address_converter,
}
use substrate_evm_account_ma.Eip712.{Eip712Domain, separator}
use substrate_evm_account_ma.Encode.{SolidityDataType, encode_packed, U256}
use substrate_evm_account_ma.Host.{Host, Token}
use substrate_evm_account_ma.Mock.{
  MockLibrary, mock_config, Hooks, System, run_to_block, set_balance, dollars,
}
use substrate_evm_account_ma.Pallet.Benchmark.{account_text, call_data, signature}
use substrate_evm_account_ma.Pallet.Exec.{Outcome, done, failed}
use substrate_evm_account_ma.Pallet.Frame.{Frame}
use substrate_evm_account_ma.Pallet.MetaCall.{meta_call}
use substrate_evm_account_ma.Pallet.Types.{State, MetaCall, RawOrigin}

-- The uncompressed key, and the compressed one.
abbrev pub uncompressed_key : Bytes
uncompressed_key =
    0x04 ∷ 0x9d ∷ 0xf1 ∷ 0xe6 ∷ 0x9b ∷ 0x8b ∷ 0x7c ∷ 0x2d ∷ 0xa2 ∷ 0xef ∷ 0xe0 ∷ 0x06 ∷ 0x9d ∷ 0xc1
    ∷ 0x41 ∷ 0xc2 ∷ 0xce ∷ 0xc0 ∷ 0x31 ∷ 0x7b ∷ 0xf3 ∷ 0xfd ∷ 0x13 ∷ 0x5a ∷ 0xba ∷ 0xeb ∷ 0x69
    ∷ 0xee ∷ 0x33 ∷ 0x80 ∷ 0x1f ∷ 0x59 ∷ 0x70 ∷ 0x24 ∷ 0xdc ∷ 0x85 ∷ 0x58 ∷ 0xdb ∷ 0xe5 ∷ 0x4a
    ∷ 0x03 ∷ 0x28 ∷ 0xce ∷ 0xaa ∷ 0x08 ∷ 0x13 ∷ 0x87 ∷ 0xa5 ∷ 0xe1 ∷ 0xc5 ∷ 0x74 ∷ 0x92 ∷ 0x47
    ∷ 0x26 ∷ 0x6f ∷ 0xe5 ∷ 0x3d ∷ 0xde ∷ 0x4b ∷ 0xa7 ∷ 0xdd ∷ 0xbf ∷ 0x43 ∷ 0xea ∷ 0xe6 ∷ []

abbrev pub compressed_key : Bytes
compressed_key =
    0x02 ∷ 0x7c ∷ 0xf2 ∷ 0xfa ∷ 0x7b ∷ 0xfe ∷ 0x66 ∷ 0xad ∷ 0xad ∷ 0x41 ∷ 0x49 ∷ 0x48 ∷ 0x1f ∷ 0xf8
    ∷ 0x67 ∷ 0x94 ∷ 0xce ∷ 0x7e ∷ 0x1a ∷ 0xb2 ∷ 0xf7 ∷ 0xed ∷ 0x61 ∷ 0x5a ∷ 0xd3 ∷ 0x91 ∷ 0x8f
    ∷ 0x91 ∷ 0x58 ∷ 0x1d ∷ 0x2c ∷ 0x00 ∷ 0xf1 ∷ []

-- The account expected of the uncompressed key, and its text.
abbrev pub transparent_account : Bytes
transparent_account =
    (0x77 ∷ 0xbb ∷ 0x3d ∷ 0x64 ∷ 0xea ∷ 0x13 ∷ 0xe4 ∷ 0xf0 ∷ 0xbe ∷ 0xaf ∷ 0xdd ∷ 0x5d ∷ 0x92 ∷ 0x50
      ∷ 0x8d ∷ 0x46 ∷ 0x43 ∷ 0xbb ∷ 0x09 ∷ 0xcb ∷ [])
    ++ evm_address

abbrev pub transparent_text : Bytes
transparent_text = as_bytes "5EmhBEe8vsSfqYseKctWsaQqNKCF9FFao6Mqa9hNfcdF25oE"

-- `assert_eq!` of bytes, and `assert_ok!`
abbrev pub assert_eq : Bytes → Bytes → Checked (Unit {0})
assert_eq left right = if bytes_eq left right then returns tt else panics

abbrev pub assert_ok : Outcome (Unit {0}) → Checked (Unit {0})
assert_ok (done a) = returns tt
assert_ok (failed e) = panics

-- What the tests call of the codecs.
pub record Codec (RuntimeCall : Type 0) : Type 0 where
  pub from_ss58check : Bytes → Option AccountId
  pub decode : Bytes → Option RuntimeCall

abbrev pub test_call : {RuntimeCall : Type 0} → AccountId → RuntimeCall → MetaCall RuntimeCall
test_call account call = record {
  who = account;
  call = call;
  nonce = 0;
  signature = signature;
  tip = some 0;
}

-- A storage with the balances of the test and nothing of the pallet.
abbrev pub fresh : {Rest Post Err : Type 0} → Rest → State Rest Post Err
fresh rest = record { account_nonce = λ a. 0; events = []; rest = rest }

module _ {RuntimeCall Rest Post Err Imbalance Liquidity : Type 0} (h : Host)
    (f : Frame RuntimeCall Rest Post Err Imbalance Liquidity) (lib : MockLibrary Rest Imbalance)
    (hooks : Hooks Rest) (codec : Codec RuntimeCall) where
  -- The test `it_works`, from the storage that `new_test_ext` builds; the loop in it is on fuel.
  unfoldable pub it_works : (fuel : ℕ) → Rest → Checked (Unit {0})
  it_works fuel genesis = do
    run ← run_to_block hooks fuel 1 (record { block_number = 0; rest = genesis })
    first ← expect run
    account ← expect (codec.from_ss58check account_text)
    call ← expect (codec.decode call_data)
    rest ← set_balance hooks account dollars first.rest
    assert_ok
        (meta_call f (mock_config h lib) RawOrigin.none (test_call account call) (fresh rest)).0

module _ {Rest Imbalance : Type 0} (h : Host) (lib : MockLibrary Rest Imbalance) where
  abbrev pub test_domain : Eip712Domain
  test_domain = record {
    name = as_bytes "Substrate";
    version = as_bytes "1";
    chain_id = lib.u256_from 0;
    verifying_contract = replicate 20 0;
    salt = none;
  }

  -- The message that the test `eip712` signs.
  abbrev pub signing_message : Bytes
  signing_message =
      let domain_separator = separator h test_domain in
      let type_hash =
        h.keccak_256 (as_bytes "SubstrateCall(string who,bytes callData,uint64 nonce)") in
      let hashed_call = h.keccak_256 call_data in
      let message_hash = h.keccak_256 (
        h.abi_encode (
          Token.fixed_bytes type_hash
          ∷ Token.fixed_bytes (h.keccak_256 account_text)
          ∷ Token.fixed_bytes hashed_call
          ∷ Token.uint (h.u256_from_u64 0)
          ∷ [])) in
      h.keccak_256 (
        encode_packed (
          SolidityDataType.string (0x19 ∷ 0x01 ∷ [])
          ∷ SolidityDataType.bytes domain_separator
          ∷ SolidityDataType.bytes message_hash
          ∷ []))

  -- The test `eip712`; the prefix of `to_ss58check` is 42.
  unfoldable pub eip712 : Checked (Unit {0})
  eip712 = do
    recovered_public_key ← expect (h.secp256k1_ecdsa_recover_compressed signature signing_message)
    decoded_account ← expect (h.account_id32_decode (h.blake2_256 recovered_public_key))
    assert_eq (h.to_ss58check_with_version decoded_account 42) account_text

-- The test `evm_transparent_converter_works`; texts in hexadecimal are compared as bytes.
unfoldable pub evm_transparent_converter_works : Host → Checked (Unit {0})
evm_transparent_converter_works h = do
  key ← slice_from 1 uncompressed_key
  let h32 = h.keccak_256 key
  let h20 = h.h160_from_h256 h32
  address ← copy_from_slice 0 20 h20 (replicate 32 0)
  raw_account ← copy_from_slice 20 32 evm_address address
  assert_eq raw_account transparent_account
  converted ← evm_transparent_convert h uncompressed_key
  account_id ← expect converted
  assert_eq account_id transparent_account
  assert_eq (h.to_ss58check_with_version account_id 42) transparent_text

-- The test `evm_substrate_address_converter_works`
unfoldable pub evm_substrate_address_converter_works : Host → Checked (Unit {0})
evm_substrate_address_converter_works h = do
  let converter = substrate_address_converter h
  converted ← converter.try_convert compressed_key
  account_id ← expect converted
  assert_eq (h.to_ss58check_with_version account_id 42) account_text
