-- ===== src/Sdk.antt =====
-- frontend-sdk/src/index.ts: how a client of the chain makes a meta call. The libraries of Polkadot and
-- of the wallet are parameters; texts are bytes, and an error that is thrown is `none`.
pub mod Callback
pub mod Laws
pub mod Prefix
pub mod Refused
pub mod Signing
use substrate_evm_account_ma.Prelude.{ℕ, Option, none, some, Bytes, List, [], ◌∷◌, as_bytes}
use substrate_evm_account_ma.Encode.{U256}

-- `ApiPromise`: the constants of the pallet, and its map asked by an address.
pub record ApiPromise : Type 0 where
  pub eip712_name : Bytes
  pub eip712_version : Bytes
  pub eip712_chain_id : U256
  pub eip712_verifying_contract_address : Bytes
  pub account_nonce : Bytes → Option ℕ

-- `Eip712Domain`
pub record Eip712Domain : Type 0 where
  pub name : Bytes
  pub version : Bytes
  pub chain_id : ℕ
  pub verifying_contract : Bytes

-- `SubstrateCall`
pub record SubstrateCall : Type 0 where
  pub who : Bytes
  pub call_data : Bytes
  pub nonce : ℕ

-- A member of a struct type: its name and its type.
pub record Field : Type 0 where
  pub name : Bytes
  pub type : Bytes

pub record TypedData : Type 0 where
  pub domain_type : List Field
  pub call_type : List Field
  pub primary_type : Bytes
  pub domain : Eip712Domain
  pub message : SubstrateCall

-- The wallet's client, and what the code calls of viem and of Polkadot's utilities. `to_number`
-- throws where a number is not exact in JavaScript.
pub record Client : Type 0 where
  pub sign_message : Bytes → Option Bytes
  pub sign_typed_data : TypedData → Option Bytes
  pub hash_message : Bytes → Bytes
  pub recover_public_key : (hash signature : Bytes) → Bytes
  pub secp256k1_compress : Bytes → Bytes
  pub blake2_as_u8a : Bytes → Bytes
  pub encode_address : Bytes → ℕ → Bytes
  pub u256_to_number : U256 → Option ℕ
  pub u64_to_number : ℕ → Option ℕ

pub record MappingAccount : Type 0 where
  pub compressed_pubkey : Bytes
  pub address : Bytes

-- The arguments of `tx.evmAccountMapping.metaCall`.
pub record SentCall : Type 0 where
  pub address : Bytes
  pub call_data : Bytes
  pub nonce : ℕ
  pub signature : Bytes
  pub tip : Option ℕ

-- The default of `SS58Prefix`, and of `msg`
abbrev pub default_prefix : ℕ
default_prefix = 30

abbrev pub default_message : Bytes
default_message = as_bytes "Allows to access the pubkey address."

abbrev pub create_typed_data : Eip712Domain → SubstrateCall → TypedData
create_typed_data domain message = record {
  domain_type =
      record { name = as_bytes "name"; type = as_bytes "string" }
      ∷ record { name = as_bytes "version"; type = as_bytes "string" }
      ∷ record { name = as_bytes "chainId"; type = as_bytes "uint256" }
      ∷ record { name = as_bytes "verifyingContract"; type = as_bytes "address" }
      ∷ [];
  call_type =
      record { name = as_bytes "who"; type = as_bytes "string" }
      ∷ record { name = as_bytes "callData"; type = as_bytes "bytes" }
      ∷ record { name = as_bytes "nonce"; type = as_bytes "uint64" }
      ∷ [];
  primary_type = as_bytes "SubstrateCall";
  domain = domain;
  message = message;
}

infixl 5 ◌>>=◌
abbrev pub ◌>>=◌ : {A B : Type 0} → Option A → (A → Option B) → Option B
none >>= k = none
some a >>= k = k a

module _ (client : Client) where
  unfoldable pub ether_address_to_compressed_pubkey : Bytes → Option Bytes
  ether_address_to_compressed_pubkey msg = do
    sign ← client.sign_message msg
    let hash = client.hash_message msg
    let recovered = client.recover_public_key hash sign
    some (client.secp256k1_compress recovered)

  unfoldable pub get_mapping_account : (prefix : ℕ) (msg : Bytes) → Option MappingAccount
  get_mapping_account prefix msg = do
    compressed_pubkey ← ether_address_to_compressed_pubkey msg
    some (record {
      compressed_pubkey = compressed_pubkey;
      address = client.encode_address (client.blake2_as_u8a compressed_pubkey) prefix;
    })

  unfoldable pub create_eip712_domain : ApiPromise → Option Eip712Domain
  create_eip712_domain api = do
    chain_id ← client.u256_to_number api.eip712_chain_id
    some (record {
      name = api.eip712_name;
      version = api.eip712_version;
      chain_id = chain_id;
      verifying_contract = api.eip712_verifying_contract_address;
    })

  unfoldable pub create_substrate_call : ApiPromise → Bytes → Bytes → Option SubstrateCall
  create_substrate_call api substrate_address extrinsic = do
    stored ← api.account_nonce substrate_address
    nonce ← client.u64_to_number stored
    some (record { who = substrate_address; call_data = extrinsic; nonce = nonce })

  -- Up to the sending of the extrinsic.
  unfoldable pub sign_and_send_evm :
      (extrinsic : Bytes) → ApiPromise → MappingAccount → Option SentCall
  sign_and_send_evm extrinsic api account = do
    substrate_call ← create_substrate_call api account.address extrinsic
    domain ← create_eip712_domain api
    signature ← client.sign_typed_data (create_typed_data domain substrate_call)
    some (record {
      address = account.address;
      call_data = substrate_call.call_data;
      nonce = substrate_call.nonce;
      signature = signature;
      tip = none;
    })
