-- ===== src/Tests/Codecs.antt =====
-- The encodings, the domain, the message and the conversion of keys at concrete inputs.
use substrate_evm_account_ma.Prelude.{
  length, Bytes, take, ◌↔◌, some, ◌++◌, [], refl, replicate, ◌∷◌, arith, as_bytes, to_be_bytes,
  true, ◌⊎◌, ◌≡◌,
}
use substrate_evm_account_ma.Prelude.Checked.{panics, returns}
use substrate_evm_account_ma.Account.{AccountId, evm_address, evm_transparent_convert}
use substrate_evm_account_ma.Account.Laws.{
  evm_transparent_convert_lem, evm_transparent_convert_panics,
}
use substrate_evm_account_ma.Account.Roundtrip.{address_of-evm_transparent_convert, address_of}
use substrate_evm_account_ma.Eip712.{Eip712Domain}
use substrate_evm_account_ma.Eip712.Binding.{separator_binding, separator_inputs, IsDomain}
use substrate_evm_account_ma.Encode.{encode_packed, pack, SolidityDataType, U256}
use substrate_evm_account_ma.Encode.Laws.{pack-number, pack-number_with_shift, value, IsU256}
use substrate_evm_account_ma.Encode.Roundtrip.{unpack-pack, unpack}
use substrate_evm_account_ma.Host.Laws.{Collision}
use substrate_evm_account_ma.Pallet.Message.{eip712_domain}
use substrate_evm_account_ma.Pallet.Message.Binding.{
  eip712_message_hash_binding, message_inputs, IsSameMessage,
}
use substrate_evm_account_ma.Tests.ToyFrame.{who, config}
use substrate_evm_account_ma.Tests.ToyHost.{host-IsH160, host-IsSs58, host-IsEthabi, host}
use substrate_evm_account_ma.Tests.ToyWords.{bytes_le}

abbrev number : U256
number = record { limb0 = 258; limb1 = 0; limb2 = 0; limb3 = 1 }

number-IsU256 : IsU256 number
number-IsU256 = omega arith

-- `encode_packed` of a text, a flag and a number in two bytes.
packed :
    encode_packed (
      SolidityDataType.string (7 ∷ 8 ∷ [])
      ∷ SolidityDataType.bool true
      ∷ SolidityDataType.number_with_shift number (record { bits = 16 })
      ∷ [])
    ≡ 7 ∷ 8 ∷ 1 ∷ 1 ∷ 2 ∷ []
unfolding encode_packed pack to_be_bytes
packed = refl

number_is_packed : pack (SolidityDataType.number number) ≡ to_be_bytes 32 (value number)
number_is_packed = pack-number number number-IsU256

shifted_number_is_packed :
    pack (SolidityDataType.number_with_shift number (record { bits = 16 }))
    ≡ to_be_bytes 2 (value number)
shifted_number_is_packed =
    pack-number_with_shift number (record { bits = 16 }) number-IsU256 (omega arith)

abbrev domain : Eip712Domain
domain = record {
  name = as_bytes "Substrate";
  version = as_bytes "1";
  chain_id = number;
  verifying_contract = replicate 20 0;
  salt = some (replicate 32 3);
}

domain-IsDomain : IsDomain domain
domain-IsDomain = record {
  chain_id_fits = number-IsU256;
  contract_fits = refl;
  salt_fits = (refl, omega arith);
}

separator_binding_example : (domain ≡ domain) ⊎ Collision host (separator_inputs host domain domain)
separator_binding_example =
    separator_binding host domain domain host-IsEthabi domain-IsDomain domain-IsDomain refl

config-IsDomain : IsDomain (eip712_domain host config)
config-IsDomain = record { chain_id_fits = omega arith; contract_fits = refl; salt_fits = tt }

eip712_message_hash_binding_example :
    IsSameMessage host config config who who (9 ∷ []) (9 ∷ []) 0 0
    ⊎ Collision host (message_inputs host config config who who (9 ∷ []) (9 ∷ []) 0 0)
eip712_message_hash_binding_example =
    eip712_message_hash_binding host host-IsEthabi host-IsSs58 config config config-IsDomain
      config-IsDomain who who (9 ∷ []) (9 ∷ []) 0 0 (omega arith) (omega arith) refl

-- A key with the prefix 4, as an uncompressed key is written.
key_is_converted :
    evm_transparent_convert host (4 ∷ replicate 64 9)
    ≡ returns (some (take 20 (bytes_le 32 64 ++ replicate 20 0) ++ evm_address))
key_is_converted = evm_transparent_convert_lem host host-IsH160 4 (replicate 64 9)

abbrev key : Bytes
key = 4 ∷ []

empty_key_panics : (evm_transparent_convert host key ≡ panics) ↔ (key ≡ [])
empty_key_panics = evm_transparent_convert_panics host host-IsH160 key

unpack-pack_example : unpack (pack (SolidityDataType.number number)) ≡ number
unpack-pack_example = unpack-pack number number-IsU256

abbrev account : AccountId
account = take 20 (bytes_le 32 64 ++ replicate 20 0) ++ evm_address

address_of-evm_transparent_convert_example :
    (length account ≡ 32) × (address_of account ≡ some (take 20 (bytes_le 32 64 ++ replicate 20 0)))
address_of-evm_transparent_convert_example =
    address_of-evm_transparent_convert host host-IsH160 4 (replicate 64 9) account key_is_converted
