-- ===== src/Host/Laws.antt =====
-- Documented behaviour of the code outside the repository, as hypotheses of the theorems.
use substrate_evm_account_ma.Prelude.{
  IsHash, ℕ, ◌*◌, ◌^◌, ◌<◌, ◌≡◌, ◌≢◌, ◌⊎◌, inl, inr, List, [], ◌∷◌, map, Bytes, length,
  bytes_eq-cases,
}
use substrate_evm_account_ma.Encode.Laws.{IsU256}
use substrate_evm_account_ma.Host.{Host, Token}

pub data Kind : Type 0 where
  uint address fixed_bytes : Kind

abbrev pub kind : Token → Kind
kind (Token.uint n) = uint
kind (Token.address a) = address
kind (Token.fixed_bytes b) = fixed_bytes

-- A token that takes one word: a number, an address, or 32 fixed bytes.
abbrev pub IsWord : Token → Type 0
IsWord (Token.uint n) = IsU256 n
IsWord (Token.address a) = length a ≡ 20
IsWord (Token.fixed_bytes b) = length b ≡ 32

abbrev pub AllWords : List Token → Type 0
AllWords [] = Unit
AllWords (t ∷ ts) = IsWord t × AllWords ts

-- Two different byte strings with one Keccak hash.
abbrev pub Collides : Host → Bytes → Bytes → Type 0
Collides h x y = (x ≢ y) × (h.keccak_256 x ≡ h.keccak_256 y)

-- One of the pairs listed is a Keccak collision.
abbrev pub Collision : Host → List (Bytes × Bytes) → Type 0
Collision h [] = ⊥
Collision h ((x, y) ∷ pairs) = Collides h x y ⊎ Collision h pairs

-- A Keccak hash is 32 bytes; each one-word token is encoded as one word, and a list of words of
-- known kinds is decodable; the conversions into `U256` give `u64` limbs and lose nothing.
pub record IsEthabi (h : Host) : Type 0 where
  pub keccak_256-IsHash : (x : Bytes) → IsHash (h.keccak_256 x)
  pub length-abi_encode :
      (ts : List Token) → AllWords ts → length (h.abi_encode ts) ≡ 32 * length ts
  pub abi_encode_injective :
      (ts us : List Token)
      → map kind ts ≡ map kind us
      → AllWords ts
      → AllWords us
      → h.abi_encode ts ≡ h.abi_encode us
      → ts ≡ us
  pub u256_from_bytes-IsU256 : (b : Bytes) → IsHash b → IsU256 (h.u256_from_bytes b)
  pub u256_from_bytes_injective :
      (b c : Bytes) → IsHash b → IsHash c → h.u256_from_bytes b ≡ h.u256_from_bytes c → b ≡ c
  pub u256_from_u64-IsU256 : (n : ℕ) → n < 2 ^ 64 → IsU256 (h.u256_from_u64 n)
  pub u256_from_u64_injective :
      (m n : ℕ) → m < 2 ^ 64 → n < 2 ^ 64 → h.u256_from_u64 m ≡ h.u256_from_u64 n → m ≡ n

-- The SS58 text of an account gives back the account and the prefix.
abbrev pub IsSs58 : Host → Type 0
IsSs58 h =
    (a b : Bytes) (p q : ℕ)
    → h.to_ss58check_with_version a p ≡ h.to_ss58check_with_version b q
    → (a ≡ b) × (p ≡ q)

-- The SCALE code of an account and a nonce gives back both.
abbrev pub IsScale : Host → Type 0
IsScale h =
    (a b : Bytes) (m n : ℕ)
    → length a ≡ 32
    → length b ≡ 32
    → m < 2 ^ 64
    → n < 2 ^ 64
    → h.encode_who_nonce a m ≡ h.encode_who_nonce b n
    → (a ≡ b) × (m ≡ n)

-- Equal hashes have equal inputs, or the inputs are a collision.
pub keccak_256-cases :
    (h : Host) (x y : Bytes) → h.keccak_256 x ≡ h.keccak_256 y → (x ≡ y) ⊎ Collides h x y
keccak_256-cases h x y e = elim (bytes_eq-cases x y) [
  | inl same ↦ inl same
  | inr differ ↦ inr (differ, e)
]
