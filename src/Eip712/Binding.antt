-- ===== src/Eip712/Binding.antt =====
-- The separator binds every attribute of the domain, up to a Keccak collision.
use substrate_evm_account_ma.Prelude.{
  [], refl, List, IsHash, ◌≡◌, ap, ◌⊎◌, inl, inr, arith, Option, none, some, ◌∷◌, map, Bytes,
  length,
}
use substrate_evm_account_ma.Eip712.{Eip712Domain, tokens, salt_tokens, domain_type_hash, separator}
use substrate_evm_account_ma.Encode.Laws.{IsU256}
use substrate_evm_account_ma.Host.{Host, Token}
use substrate_evm_account_ma.Host.Laws.{
  IsEthabi, Collides, Collision, AllWords, IsWord, Kind, kind, keccak_256-cases,
}

abbrev pub IsSalt : Option Bytes → Type 0
IsSalt none = Unit
IsSalt (some s) = IsHash s

-- The sizes that the types of the fields give: `U256`, `[u8; 20]` and `[u8; 32]`.
pub record IsDomain (d : Eip712Domain) : Type 0 where
  pub chain_id_fits : IsU256 d.chain_id
  pub contract_fits : length d.verifying_contract ≡ 20
  pub salt_fits : IsSalt d.salt

pub length-separator : (h : Host) (d : Eip712Domain) → IsEthabi h → length (separator h d) ≡ 32
unfolding separator
length-separator h d L = (L.keccak_256-IsHash _).0

-- What the two separators hash, side by side: the encodings, the names, the versions.
abbrev pub separator_inputs : Host → Eip712Domain → Eip712Domain → List (Bytes × Bytes)
separator_inputs h d e =
    (h.abi_encode (tokens h d), h.abi_encode (tokens h e))
    ∷ (d.name, e.name)
    ∷ (d.version, e.version)
    ∷ []

module _ (h : Host) (L : IsEthabi h) where
  hash-IsWord : (x : Bytes) → IsWord (Token.uint (h.u256_from_bytes (h.keccak_256 x)))
  hash-IsWord x = L.u256_from_bytes-IsU256 _ (L.keccak_256-IsHash x)

  type_hash-IsWord :
      (salt : Option Bytes) → IsWord (Token.uint (h.u256_from_bytes (domain_type_hash salt)))
  type_hash-IsWord none = L.u256_from_bytes-IsU256 _ (refl, omega arith)
  type_hash-IsWord (some salt) = L.u256_from_bytes-IsU256 _ (refl, omega arith)

  salt_words : (salt : Option Bytes) → IsSalt salt → AllWords (salt_tokens h salt)
  salt_words none w = tt
  salt_words (some salt) w = (L.u256_from_bytes-IsU256 salt w, tt)

  tokens-AllWords : (d : Eip712Domain) → IsDomain d → AllWords (tokens h d)
  tokens-AllWords d w = (
    type_hash-IsWord d.salt,
    (
      hash-IsWord d.name,
      (hash-IsWord d.version, (w.chain_id_fits, (w.contract_fits, salt_words d.salt w.salt_fits))),
    ),
  )

  salt_kinds :
      (s t : Option Bytes)
      → length (salt_tokens h s) ≡ length (salt_tokens h t)
      → map kind (salt_tokens h s) ≡ map kind (salt_tokens h t)
  salt_kinds none none e = refl
  salt_kinds none (some t) e = absurd (omega arith)
  salt_kinds (some s) none e = absurd (omega arith)
  salt_kinds (some s) (some t) e = refl

  salt_injective :
      (s t : Option Bytes) → IsSalt s → IsSalt t → salt_tokens h s ≡ salt_tokens h t → s ≡ t
  salt_injective none none u v e = refl
  salt_injective none (some t) u v e = cc
  salt_injective (some s) none u v e = cc
  salt_injective (some s) (some t) u v e = ap some (L.u256_from_bytes_injective s t u v (cc))

  -- One encoding has one list of tokens.
  same_tokens :
      (d e : Eip712Domain)
      → IsDomain d
      → IsDomain e
      → h.abi_encode (tokens h d) ≡ h.abi_encode (tokens h e)
      → tokens h d ≡ tokens h e
  same_tokens d e u v p =
      let sizes : length (salt_tokens h d.salt) ≡ length (salt_tokens h e.salt) = omega (
        arith,
        ap length p,
        L.length-abi_encode (tokens h d) (tokens-AllWords d u),
        L.length-abi_encode (tokens h e) (tokens-AllWords e v),
      ) in
      L.abi_encode_injective (tokens h d) (tokens h e)
        (ap (λ ks. Kind.uint ∷ Kind.uint ∷ Kind.uint ∷ Kind.uint ∷ Kind.address ∷ ks)
          (salt_kinds d.salt e.salt sizes))
        (tokens-AllWords d u) (tokens-AllWords e v) p

  same_hash :
      (x y : Bytes)
      → h.u256_from_bytes (h.keccak_256 x) ≡ h.u256_from_bytes (h.keccak_256 y)
      → (x ≡ y) ⊎ Collides h x y
  same_hash x y e =
      keccak_256-cases h x y
        (L.u256_from_bytes_injective _ _ (L.keccak_256-IsHash x) (L.keccak_256-IsHash y) e)

  same_domain :
      (d e : Eip712Domain)
      → IsDomain d
      → IsDomain e
      → tokens h d ≡ tokens h e
      → (d ≡ e) ⊎ Collision h (separator_inputs h d e)
  same_domain d e u v p = elim (same_hash d.name e.name (cc)) [
    | inr c ↦ inr (inr (inl c))
    | inl names ↦ elim (same_hash d.version e.version (cc)) [
      | inr c ↦ inr (inr (inr (inl c)))
      | inl versions ↦
          let salts : d.salt ≡ e.salt = salt_injective d.salt e.salt u.salt_fits v.salt_fits (cc) in
          inl (ground arith)
    ]
  ]

-- Two domains with one separator are the same domain (name, version, chain id, contract and salt),
-- or one of the three pairs of inputs that the separators hash is a Keccak collision. Assumes the
-- documented behaviour of ethabi, and fields of the sizes that their types give.
pub separator_binding :
    (h : Host) (d e : Eip712Domain)
    → IsEthabi h
    → IsDomain d
    → IsDomain e
    → separator h d ≡ separator h e
    → (d ≡ e) ⊎ Collision h (separator_inputs h d e)
unfolding separator
separator_binding h d e L u v p = elim (keccak_256-cases h _ _ p) [
  | inl encodings ↦ same_domain h L d e u v (same_tokens h L d e u v encodings)
  | inr c ↦ inr (inl c)
]
