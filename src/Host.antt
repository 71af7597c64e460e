-- ===== src/Host.antt =====
-- The code outside the repository that the pallet calls: the host functions of `sp_io`, the codecs
-- of `parity-scale-codec`, `ethabi` and `sp_core`. They are parameters; `Host/Laws` states what is
-- documented of them.
pub mod Laws
use substrate_evm_account_ma.Prelude.{ℕ, Option, List, Bytes}
use substrate_evm_account_ma.Encode.{U256}

-- The tokens of `ethabi` that the code builds.
pub data Token : Type 0 where
  uint : U256 → Token
  address : Bytes → Token
  fixed_bytes : Bytes → Token

pub record Host : Type 0 where
  -- `sp_io::hashing`
  pub keccak_256 : Bytes → Bytes
  pub blake2_256 : Bytes → Bytes
  -- `sp_io::crypto`, of a signature and a message hash; `none` is `Err`
  pub secp256k1_ecdsa_recover : Bytes → Bytes → Option Bytes
  pub secp256k1_ecdsa_recover_compressed : Bytes → Bytes → Option Bytes
  -- `AccountId32::decode(&mut &bytes[..]).ok()`
  pub account_id32_decode : Bytes → Option Bytes
  -- `H160::from(h256)`
  pub h160_from_h256 : Bytes → Bytes
  -- `U256::from` of 32 bytes, and of a `u64`
  pub u256_from_bytes : Bytes → U256
  pub u256_from_u64 : ℕ → U256
  -- `ethabi::encode`
  pub abi_encode : List Token → Bytes
  -- `to_ss58check_with_version`, as bytes
  pub to_ss58check_with_version : Bytes → ℕ → Bytes
  -- `(who, nonce).encode()`
  pub encode_who_nonce : Bytes → ℕ → Bytes
