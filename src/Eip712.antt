-- ===== src/Eip712.antt =====
-- pallets/evm_account_mapping/src/eip712.rs: the domain separator.
pub mod Binding
pub mod Standard
use substrate_evm_account_ma.Prelude.{
  Option, none, some, Bool, true, false, List, [], ◌∷◌, ◌++◌, Bytes,
}
use substrate_evm_account_ma.Encode.{U256}
use substrate_evm_account_ma.Host.{Host, Token}

abbrev pub eip712_domain_type_hash : Bytes
eip712_domain_type_hash =
    139 ∷ 115 ∷ 195 ∷ 198 ∷ 155 ∷ 184 ∷ 254 ∷ 61 ∷ 81 ∷ 46 ∷ 204 ∷ 76 ∷ 247 ∷ 89 ∷ 204 ∷ 121 ∷ 35
    ∷ 159 ∷ 123 ∷ 23 ∷ 155 ∷ 15 ∷ 250 ∷ 202 ∷ 169 ∷ 167 ∷ 93 ∷ 82 ∷ 43 ∷ 57 ∷ 64 ∷ 15 ∷ []

abbrev pub eip712_domain_type_hash_with_salt : Bytes
eip712_domain_type_hash_with_salt =
    216 ∷ 124 ∷ 214 ∷ 239 ∷ 121 ∷ 212 ∷ 226 ∷ 185 ∷ 94 ∷ 21 ∷ 206 ∷ 138 ∷ 191 ∷ 115 ∷ 45 ∷ 181 ∷ 30
    ∷ 199 ∷ 113 ∷ 241 ∷ 202 ∷ 46 ∷ 220 ∷ 207 ∷ 34 ∷ 164 ∷ 108 ∷ 114 ∷ 154 ∷ 197 ∷ 100 ∷ 114 ∷ []

pub record Eip712Domain : Type 0 where
  pub name : Bytes
  pub version : Bytes
  pub chain_id : U256
  pub verifying_contract : Bytes
  pub salt : Option Bytes

abbrev pub domain_type_hash : Option Bytes → Bytes
domain_type_hash (some salt) = eip712_domain_type_hash_with_salt
domain_type_hash none = eip712_domain_type_hash

-- `tokens.push`, if there is a salt
abbrev pub salt_tokens : Host → Option Bytes → List Token
salt_tokens h none = []
salt_tokens h (some salt) = Token.uint (h.u256_from_bytes salt) ∷ []

abbrev pub tokens : Host → Eip712Domain → List Token
tokens h d =
    Token.uint (h.u256_from_bytes (domain_type_hash d.salt))
    ∷ Token.uint (h.u256_from_bytes (h.keccak_256 d.name))
    ∷ Token.uint (h.u256_from_bytes (h.keccak_256 d.version))
    ∷ Token.uint d.chain_id
    ∷ Token.address d.verifying_contract
    ∷ salt_tokens h d.salt

unfoldable pub separator : Host → Eip712Domain → Bytes
separator h d = h.keccak_256 (h.abi_encode (tokens h d))
