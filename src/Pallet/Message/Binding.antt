-- ===== src/Pallet/Message/Binding.antt =====
-- The signed hash binds the domain, the account, the call and the nonce, up to a Keccak collision of its own inputs.
use substrate_evm_account_ma.Prelude.{
  refl, List, inl, ◌++◌, inr, ◌∷◌, append_injective, ◌∙◌, sym, ◌⊎◌, ◌^◌, ◌≡◌, ◌<◌, ℕ, Bytes,
}
use substrate_evm_account_ma.Account.{AccountId}
use substrate_evm_account_ma.Eip712.{separator}
use substrate_evm_account_ma.Eip712.Binding.{
  separator_inputs, separator_binding, length-separator, IsDomain,
}
use substrate_evm_account_ma.Encode.{pack, encode_packed}
use substrate_evm_account_ma.Host.{Host}
use substrate_evm_account_ma.Host.Laws.{keccak_256-cases, Collision, AllWords, IsSs58, IsEthabi}
use substrate_evm_account_ma.Pallet.Frame.{Config}
use substrate_evm_account_ma.Pallet.Message.{
  eip712_message_hash, message_tokens, eip712_domain, typed_data_hash_input,
}

module _ {RuntimeCall Rest Imbalance : Type 0} (h : Host) (L : IsEthabi h) where
  message_tokens-AllWords :
      (c : Config RuntimeCall Rest Imbalance) (who : AccountId) (call_data : Bytes) (nonce : ℕ)
      → nonce < 2 ^ 64
      → AllWords (message_tokens h c who call_data nonce)
  message_tokens-AllWords c who call_data nonce fits = (
    (L.keccak_256-IsHash _).0,
    (
      (L.keccak_256-IsHash _).0,
      ((L.keccak_256-IsHash _).0, (L.u256_from_u64-IsU256 nonce fits, tt)),
    ),
  )

-- The bytes that are hashed last: a mark of two bytes, the separator and the message's hash.
pub hash_input :
    {RuntimeCall Rest Imbalance : Type 0} (h : Host) (c : Config RuntimeCall Rest Imbalance)
    (who : AccountId) (call_data : Bytes) (nonce : ℕ)
    → encode_packed (typed_data_hash_input h c who call_data nonce)
      ≡ 0x19
        ∷ 0x01
        ∷ (separator h (eip712_domain h c)
            ++ h.keccak_256 (h.abi_encode (message_tokens h c who call_data nonce)))
unfolding encode_packed pack
hash_input h c who call_data nonce = refl

-- What the two computations hash, side by side: the packed bytes, the encoded messages, the
-- accounts' texts, the calls, and what the separators hash.
abbrev pub message_inputs :
    {RuntimeCall Rest Imbalance : Type 0} (h : Host) (c d : Config RuntimeCall Rest Imbalance)
    (who who' : AccountId) (call_data call_data' : Bytes) (nonce nonce' : ℕ)
    → List (Bytes × Bytes)
message_inputs h c d who who' call_data call_data' nonce nonce' =
    (
      encode_packed (typed_data_hash_input h c who call_data nonce),
      encode_packed (typed_data_hash_input h d who' call_data' nonce'),
    )
    ∷ (
      h.abi_encode (message_tokens h c who call_data nonce),
      h.abi_encode (message_tokens h d who' call_data' nonce'),
    )
    ∷ (
      h.to_ss58check_with_version who c.ss58_prefix,
      h.to_ss58check_with_version who' d.ss58_prefix,
    )
    ∷ (call_data, call_data')
    ∷ separator_inputs h (eip712_domain h c) (eip712_domain h d)

-- What two signed messages have in common.
pub record IsSameMessage {RuntimeCall Rest Imbalance : Type 0} (h : Host)
    (c d : Config RuntimeCall Rest Imbalance) (who who' : AccountId) (call_data call_data' : Bytes)
    (nonce nonce' : ℕ) : Type 0 where
  pub same_domain : eip712_domain h c ≡ eip712_domain h d
  pub same_who : who ≡ who'
  pub same_call_data : call_data ≡ call_data'
  pub same_nonce : nonce ≡ nonce'

module _ {RuntimeCall Rest Imbalance : Type 0} (h : Host) (L : IsEthabi h) (S : IsSs58 h)
    (c d : Config RuntimeCall Rest Imbalance) (u : IsDomain (eip712_domain h c))
    (v : IsDomain (eip712_domain h d)) (who who' : AccountId) (call_data call_data' : Bytes)
    (nonce nonce' : ℕ) (fits : nonce < 2 ^ 64) (fits' : nonce' < 2 ^ 64) where
  same_message :
      eip712_domain h c ≡ eip712_domain h d
      → message_tokens h c who call_data nonce ≡ message_tokens h d who' call_data' nonce'
      → IsSameMessage h c d who who' call_data call_data' nonce nonce'
        ⊎ Collision h (message_inputs h c d who who' call_data call_data' nonce nonce')
  same_message domains p =
      elim (keccak_256-cases h (h.to_ss58check_with_version who c.ss58_prefix)
        (h.to_ss58check_with_version who' d.ss58_prefix) (cc)) [
          | inr x ↦ inr (inr (inr (inl x)))
          | inl texts ↦ elim (keccak_256-cases h call_data call_data' (cc)) [
            | inr x ↦ inr (inr (inr (inr (inl x))))
            | inl same_data ↦ inl (record {
              same_domain = domains;
              same_who = (S who who' c.ss58_prefix d.ss58_prefix texts).0;
              same_call_data = same_data;
              same_nonce = L.u256_from_u64_injective nonce nonce' fits fits' (cc);
            })
          ]
        ]

  -- The two parts of the hashed bytes agree.
  same_parts :
      encode_packed (typed_data_hash_input h c who call_data nonce)
        ≡ encode_packed (typed_data_hash_input h d who' call_data' nonce')
      → (separator h (eip712_domain h c) ≡ separator h (eip712_domain h d))
        × (h.keccak_256 (h.abi_encode (message_tokens h c who call_data nonce))
            ≡ h.keccak_256 (h.abi_encode (message_tokens h d who' call_data' nonce')))
  same_parts p =
      let e =
        sym (hash_input h c who call_data nonce) ∙ (p ∙ hash_input h d who' call_data' nonce') in
      append_injective _ _ _ _
        (length-separator h (eip712_domain h c) L ∙ sym (length-separator h (eip712_domain h d) L))
        (cc e)

  -- If two messages have one hash, their domains, accounts, calls and nonces are the same, or one
  -- of the seven pairs of inputs that the two computations hash is a Keccak collision. Assumes the
  -- documented behaviour of ethabi and SS58, sizes of the domains' fields as in their types, and
  -- nonces that are u64s.
  pub eip712_message_hash_binding :
      eip712_message_hash h c who call_data nonce ≡ eip712_message_hash h d who' call_data' nonce'
      → IsSameMessage h c d who who' call_data call_data' nonce nonce'
        ⊎ Collision h (message_inputs h c d who who' call_data call_data' nonce nonce')
  unfolding eip712_message_hash
  eip712_message_hash_binding p = elim (keccak_256-cases h _ _ p) [
    | inr x ↦ inr (inl x)
    | inl inputs ↦
        let (separators, messages) = same_parts inputs in
        elim (separator_binding h _ _ L u v separators) [
          | inr x ↦ inr (inr (inr (inr (inr x))))
          | inl domains ↦ elim (keccak_256-cases h _ _ messages) [
            | inr x ↦ inr (inr (inl x))
            | inl encodings ↦ same_message domains (
                L.abi_encode_injective (message_tokens h c who call_data nonce)
                  (message_tokens h d who' call_data' nonce') refl
                  (message_tokens-AllWords h L c who call_data nonce fits)
                  (message_tokens-AllWords h L d who' call_data' nonce' fits') encodings)
          ]
        ]
  ]
