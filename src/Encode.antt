-- ===== src/Encode.antt =====
-- pallets/evm_account_mapping/src/encode.rs: Solidity's packed encoding.
-- A `&str` stands for its bytes, and a `U256` for its four 64-bit limbs, the lowest first. The
-- runtime is compiled for wasm32, so `usize` wraps at 2 ^ 32.
pub mod Laws
pub mod Roundtrip
use substrate_evm_account_ma.Prelude.{
  ℕ, ◌+◌, ◌-◌, ◌/◌, ◌%◌, Bool, true, false, List, [], ◌∷◌, ◌++◌, Bytes, length, drop, u32_mod,
  to_be_bytes,
}
use mathlib.Core.List.{foldl, reverse}

-- `ethereum_types::U256(pub [u64; 4])`
pub record U256 : Type 0 where
  pub limb0 : ℕ
  pub limb1 : ℕ
  pub limb2 : ℕ
  pub limb3 : ℕ

-- `n.0`
abbrev pub limbs : U256 → List ℕ
limbs n = n.limb0 ∷ n.limb1 ∷ n.limb2 ∷ n.limb3 ∷ []

pub record TakeLastXBytes : Type 0 where
  pub bits : ℕ

pub data SolidityDataType : Type 0 where
  string : Bytes → SolidityDataType
  address : Bytes → SolidityDataType
  bytes : Bytes → SolidityDataType
  bool : Bool → SolidityDataType
  number : U256 → SolidityDataType
  number_with_shift : U256 → TakeLastXBytes → SolidityDataType

-- The loop that appends each limb's big-endian bytes.
abbrev pub extend_limb : Bytes → ℕ → Bytes
extend_limb acc b = acc ++ to_be_bytes 8 b

-- `usize` subtraction, which wraps in a release build.
abbrev pub sub_usize : ℕ → ℕ → ℕ
sub_usize a b = (a + u32_mod - b) % u32_mod

unfoldable pub pack : SolidityDataType → Bytes
pack (string s) = s
pack (address a) = a
pack (bytes b) = b
pack (bool true) = 1 ∷ []
pack (bool false) = 0 ∷ []
pack (number n) = foldl extend_limb [] (reverse (limbs n))
pack (number_with_shift n to_take) =
    let local_res = foldl extend_limb [] (reverse (limbs n)) in
    drop (sub_usize (length local_res) (to_take.bits / 8)) local_res

-- `[Vec<u8>]::join` with the separator given.
abbrev pub join : List Bytes → Bytes → Bytes
join [] sep = []
join (x ∷ []) sep = x
join (x ∷ y ∷ ys) sep = x ++ (sep ++ join (y ∷ ys) sep)

abbrev pub push_pack : List Bytes → SolidityDataType → List Bytes
push_pack acc i = acc ++ (pack i ∷ [])

unfoldable pub encode_packed : List SolidityDataType → Bytes
encode_packed items = join (foldl push_pack [] items) []
