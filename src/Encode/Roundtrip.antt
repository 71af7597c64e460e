-- ===== src/Encode/Roundtrip.antt =====
-- Reading a packed number back.
use substrate_evm_account_ma.Prelude.{
  from_be-to_be_bytes, ◌/◌, arith, ◌^◌, from_be, shr8, ◌%◌, ◌≡◌, Bytes, ℕ,
}
use substrate_evm_account_ma.Encode.{U256, SolidityDataType, pack}
use substrate_evm_account_ma.Encode.Laws.{pack-number, value, IsU256}

-- The limbs of a number, and a number from its bytes.
abbrev pub u256_of : ℕ → U256
u256_of v = record {
  limb0 = v % 2 ^ 64;
  limb1 = v / 2 ^ 64 % 2 ^ 64;
  limb2 = v / 2 ^ 128 % 2 ^ 64;
  limb3 = v / 2 ^ 192 % 2 ^ 64;
}

abbrev pub unpack : Bytes → U256
unpack b = u256_of (from_be 0 b)

u256_of-value : (n : U256) → IsU256 n → u256_of (value n) ≡ n
u256_of-value n h = ground arith

shr8-value : (n : U256) → IsU256 n → shr8 32 (value n) ≡ 0
shr8-value n h = omega arith

-- A number whose limbs are `u64`s is read back from its packed bytes.
pub unpack-pack : (n : U256) → IsU256 n → unpack (pack (SolidityDataType.number n)) ≡ n
unpack-pack n h =
    rw (pack-number n h, from_be-to_be_bytes 32 (value n) (shr8-value n h)) (u256_of-value n h)
