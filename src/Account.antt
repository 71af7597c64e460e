-- ===== src/Account.antt =====
-- pallets/evm_account_mapping/src/lib.rs: the conversions of a public key into an account
-- (`AddressConversion`, `SubstrateAddressConverter`, `EvmTransparentConverter`).
-- An account is its 32 bytes. A slice or a copy out of range panics.
pub mod Laws
pub mod Roundtrip
use substrate_evm_account_ma.Prelude.{
  ℕ, ◌+◌, ◌-◌, Bool, ◌&&◌, Option, some, List, [], ◌∷◌, ◌++◌, Bytes, length, take, drop, replicate,
  as_bytes, leb, ◌==◌, if◌then◌else◌,
}
use substrate_evm_account_ma.Prelude.Checked.{Checked, returns, panics, ◌>>=◌}
use substrate_evm_account_ma.Host.{Host}

abbrev pub AccountId : Type 0
AccountId = Bytes

pub data Secp256K1PublicKeyForm : Type 0 where
  compressed uncompressed : Secp256K1PublicKeyForm

pub record AddressConversion : Type 0 where
  pub secp256k1_public_key_form : Secp256K1PublicKeyForm
  pub try_convert : Bytes → Checked (Option AccountId)

abbrev pub substrate_address_converter : Host → AddressConversion
substrate_address_converter h = record {
  secp256k1_public_key_form = compressed;
  try_convert = λ evm_public_key. returns (h.account_id32_decode (h.blake2_256 evm_public_key));
}

-- `&bytes[from..]`
unfoldable pub slice_from : ℕ → Bytes → Checked Bytes
slice_from from bytes = if leb from (length bytes) then returns (drop from bytes) else panics

-- `target[from..to].copy_from_slice(source)`
unfoldable pub copy_from_slice : ℕ → ℕ → Bytes → Bytes → Checked Bytes
copy_from_slice from to source target =
    if (leb from to && leb to (length target)) && (length source == to - from)
    then returns (take from target ++ (source ++ drop to target))
    else panics

abbrev pub evm_address : Bytes
evm_address = as_bytes "@evm_address"

unfoldable pub evm_transparent_convert : Host → Bytes → Checked (Option AccountId)
evm_transparent_convert h evm_public_key = do
  key ← slice_from 1 evm_public_key
  let h32 = h.keccak_256 key
  let h20 = h.h160_from_h256 h32
  address ← copy_from_slice 0 20 h20 (replicate 32 0)
  raw_account ← copy_from_slice 20 32 evm_address address
  returns (some raw_account)

abbrev pub evm_transparent_converter : Host → AddressConversion
evm_transparent_converter h = record {
  secp256k1_public_key_form = uncompressed;
  try_convert = evm_transparent_convert h;
}
