-- ===== src/Pallet/Message.antt =====
-- `eip712_message_hash`: the EIP-712 hash that an account signs.
pub mod Binding
pub mod Standard
use substrate_evm_account_ma.Prelude.{ℕ, none, List, [], ◌∷◌, Bytes, as_bytes}
use substrate_evm_account_ma.Encode.{SolidityDataType, encode_packed}
use substrate_evm_account_ma.Host.{Host, Token}
use substrate_evm_account_ma.Account.{AccountId}
use substrate_evm_account_ma.Eip712.{Eip712Domain, separator}
use substrate_evm_account_ma.Pallet.Frame.{Config}

abbrev pub substrate_call_type : Bytes
substrate_call_type = as_bytes "SubstrateCall(string who,bytes callData,uint64 nonce)"

module _ {RuntimeCall Rest Imbalance : Type 0} (h : Host)
    (c : Config RuntimeCall Rest Imbalance) where
  abbrev pub eip712_domain : Eip712Domain
  eip712_domain = record {
    name = c.eip712_name;
    version = c.eip712_version;
    chain_id = c.eip712_chain_id;
    verifying_contract = c.eip712_verifying_contract_address;
    salt = none;
  }

  abbrev pub message_tokens : AccountId → Bytes → ℕ → List Token
  message_tokens who call_data nonce =
      Token.fixed_bytes (h.keccak_256 substrate_call_type)
      ∷ Token.fixed_bytes (h.keccak_256 (h.to_ss58check_with_version who c.ss58_prefix))
      ∷ Token.fixed_bytes (h.keccak_256 call_data)
      ∷ Token.uint (h.u256_from_u64 nonce)
      ∷ []

  abbrev pub typed_data_hash_input : AccountId → Bytes → ℕ → List SolidityDataType
  typed_data_hash_input who call_data nonce =
      SolidityDataType.string (0x19 ∷ 0x01 ∷ [])
      ∷ SolidityDataType.bytes (separator h eip712_domain)
      ∷ SolidityDataType.bytes (h.keccak_256 (h.abi_encode (message_tokens who call_data nonce)))
      ∷ []

  unfoldable pub eip712_message_hash : AccountId → Bytes → ℕ → Bytes
  eip712_message_hash who call_data nonce =
      h.keccak_256 (encode_packed (typed_data_hash_input who call_data nonce))
