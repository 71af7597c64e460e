-- ===== src/Eip712/Standard.antt =====
-- EIP-712 as the standard writes it, and the domain separator against it.
use substrate_evm_account_ma.Prelude.{
  refl, ◌^◌, none, ◌<◌, ◌∙◌, ap, replicate, some, sym, IsHash, [], as_bytes, to_be_bytes, ℕ, ◌++◌,
  ◌∷◌, ◌≡◌, Bytes, List, Option,
}
use substrate_evm_account_ma.Eip712.{
  Eip712Domain, separator, tokens, salt_tokens, domain_type_hash, eip712_domain_type_hash,
  eip712_domain_type_hash_with_salt,
}
use substrate_evm_account_ma.Eip712.Binding.{IsDomain, IsSalt}
use substrate_evm_account_ma.Encode.Laws.{IsU256, value}
use substrate_evm_account_ma.Host.{Host, Token}
use substrate_evm_account_ma.Host.Laws.{AllWords}

-- The values of a struct's members. A `uint64` is encoded as a `uint256`.
pub data Member : Type 0 where
  text : Bytes → Member
  dynamic_bytes : Bytes → Member
  uint256 : ℕ → Member
  address : Bytes → Member
  bytes32 : Bytes → Member

module _ (h : Host) where
  -- `enc(value)`, a word for each member.
  abbrev pub enc : Member → Bytes
  enc (text s) = h.keccak_256 s
  enc (dynamic_bytes b) = h.keccak_256 b
  enc (uint256 n) = to_be_bytes 32 n
  enc (address a) = replicate 12 0 ++ a
  enc (bytes32 b) = b

  abbrev pub encode_data : List Member → Bytes
  encode_data [] = []
  encode_data (m ∷ ms) = enc m ++ encode_data ms

  -- `hashStruct(s) = keccak256(typeHash ‖ encodeData(s))`, with `typeHash = keccak256(encodeType)`
  abbrev pub hash_struct : (encode_type : Bytes) → List Member → Bytes
  hash_struct encode_type members = h.keccak_256 (h.keccak_256 encode_type ++ encode_data members)

  -- `keccak256("\x19\x01" ‖ domainSeparator ‖ hashStruct(message))`
  abbrev pub typed_data_hash : (domain_separator message : Bytes) → Bytes
  typed_data_hash domain_separator message =
      h.keccak_256 (0x19 ∷ 0x01 ∷ (domain_separator ++ message))

abbrev pub domain_type : Option Bytes → Bytes
domain_type none =
    as_bytes "EIP712Domain(string name,string version,uint256 chainId,"
    ++ as_bytes "address verifyingContract)"
domain_type (some salt) =
    as_bytes "EIP712Domain(string name,string version,uint256 chainId,"
    ++ as_bytes "address verifyingContract,bytes32 salt)"

abbrev pub salt_members : Option Bytes → List Member
salt_members none = []
salt_members (some salt) = bytes32 salt ∷ []

abbrev pub domain_members : Eip712Domain → List Member
domain_members d =
    text d.name
    ∷ text d.version
    ∷ uint256 (value d.chain_id)
    ∷ address d.verifying_contract
    ∷ salt_members d.salt

-- The word of a token that takes one.
abbrev pub word : Token → Bytes
word (Token.uint n) = to_be_bytes 32 (value n)
word (Token.address a) = replicate 12 0 ++ a
word (Token.fixed_bytes b) = b

abbrev pub words : List Token → Bytes
words [] = []
words (t ∷ ts) = word t ++ words ts

-- The Keccak hashes of the domain's two types, as they are published for EIP-712.
abbrev pub domain_typehash : ℕ
domain_typehash = 0x8b73c3c69bb8fe3d512ecc4cf759cc79239f7b179b0ffacaa9a75d522b39400f

abbrev pub domain_typehash_with_salt : ℕ
domain_typehash_with_salt = 0xd87cd6ef79d4e2b95e15ce8abf732db51ec771f1ca2edccf22a46c729ac56472

-- Documented behaviour: a Keccak hash is 32 bytes; `ethabi` writes tokens of one word one after the
-- other, numbers with the highest byte first; 32 bytes and a `u64` are read as the numbers they are.
-- The type hashes of the two domain types are the known ones.
pub record IsAbi (h : Host) : Type 0 where
  pub keccak_256-IsHash : (x : Bytes) → IsHash (h.keccak_256 x)
  pub abi_encode_words : (ts : List Token) → AllWords ts → h.abi_encode ts ≡ words ts
  pub u256_from_bytes-IsU256 : (b : Bytes) → IsHash b → IsU256 (h.u256_from_bytes b)
  pub u256_from_bytes_word :
      (b : Bytes) → IsHash b → to_be_bytes 32 (value (h.u256_from_bytes b)) ≡ b
  pub u256_from_u64-IsU256 : (n : ℕ) → n < 2 ^ 64 → IsU256 (h.u256_from_u64 n)
  pub u256_from_u64_value : (n : ℕ) → n < 2 ^ 64 → value (h.u256_from_u64 n) ≡ n
  pub type_hash : h.keccak_256 (domain_type none) ≡ to_be_bytes 32 domain_typehash
  pub type_hash_with_salt :
      (salt : Bytes)
      → h.keccak_256 (domain_type (some salt)) ≡ to_be_bytes 32 domain_typehash_with_salt

-- The source's constants are these bytes.
constant_lem : eip712_domain_type_hash ≡ to_be_bytes 32 domain_typehash
unfolding to_be_bytes
constant_lem = refl

constant_with_salt_lem :
    eip712_domain_type_hash_with_salt ≡ to_be_bytes 32 domain_typehash_with_salt
unfolding to_be_bytes
constant_with_salt_lem = refl

module _ (h : Host) (L : IsAbi h) where
  type_hash_lem : (salt : Option Bytes) → domain_type_hash salt ≡ h.keccak_256 (domain_type salt)
  type_hash_lem none = constant_lem ∙ sym L.type_hash
  type_hash_lem (some salt) = constant_with_salt_lem ∙ sym (L.type_hash_with_salt salt)

  hash_word : (x : Bytes) → word (Token.uint (h.u256_from_bytes (h.keccak_256 x))) ≡ h.keccak_256 x
  hash_word x = L.u256_from_bytes_word (h.keccak_256 x) (L.keccak_256-IsHash x)

  salt_lem :
      (salt : Option Bytes)
      → IsSalt salt
      → AllWords (salt_tokens h salt)
        × (words (salt_tokens h salt) ≡ encode_data h (salt_members salt))
  salt_lem none w = (tt, refl)
  salt_lem (some salt) w =
      ((L.u256_from_bytes-IsU256 salt w, tt), rw (L.u256_from_bytes_word salt w))

  tokens-AllWords : (d : Eip712Domain) → IsDomain d → AllWords (tokens h d)
  tokens-AllWords d w = rw (type_hash_lem d.salt) (
    L.u256_from_bytes-IsU256 _ (L.keccak_256-IsHash _),
    (
      L.u256_from_bytes-IsU256 _ (L.keccak_256-IsHash _),
      (
        L.u256_from_bytes-IsU256 _ (L.keccak_256-IsHash _),
        (w.chain_id_fits, (w.contract_fits, (salt_lem d.salt w.salt_fits).0)),
      ),
    ),
  )

  -- The separator of a domain is the standard's hash of its struct, with the salt if there is one.
  -- Assumes IsAbi of the host and fields of the sizes that their types give.
  pub separator-hash_struct :
      (d : Eip712Domain)
      → IsDomain d
      → separator h d ≡ hash_struct h (domain_type d.salt) (domain_members d)
  unfolding separator
  separator-hash_struct d w = ap h.keccak_256 (
      L.abi_encode_words (tokens h d) (tokens-AllWords d w)
      ∙ rw (type_hash_lem d.salt) (
          rw (
            hash_word (domain_type d.salt),
            hash_word d.name,
            hash_word d.version,
            (salt_lem d.salt w.salt_fits).1,
          )))
