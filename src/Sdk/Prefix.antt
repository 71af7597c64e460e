-- ===== src/Sdk/Prefix.antt =====
-- The prefix of an address that a client writes, which is signed with it.
use substrate_evm_account_ma.Prelude.{
  none, ◌≡◌, ◌⊎◌, ◌<◌, ◌^◌, ◌++◌, ◌∷◌, [], ℕ, List, Bytes, inl, inr, append_injective, refl, sym,
  ◌∙◌,
}
use substrate_evm_account_ma.Account.{AccountId}
use substrate_evm_account_ma.Eip712.Binding.{IsDomain}
use substrate_evm_account_ma.Eip712.Standard.{
  IsAbi, text, dynamic_bytes, uint256, address, domain_type, encode_data, hash_struct,
}
use substrate_evm_account_ma.Encode.Laws.{value}
use substrate_evm_account_ma.Host.{Host}
use substrate_evm_account_ma.Host.Laws.{Collision, IsSs58, keccak_256-cases}
use substrate_evm_account_ma.Pallet.Frame.{Frame}
use substrate_evm_account_ma.Pallet.Message.{
  eip712_domain, eip712_message_hash, substrate_call_type,
}
use substrate_evm_account_ma.Pallet.Types.{State}
use substrate_evm_account_ma.Runtime.{Library, runtime_config, ss58_prefix}
use substrate_evm_account_ma.Sdk.{ApiPromise, Client, TypedData}
use substrate_evm_account_ma.Sdk.Laws.{IsApi, data_hash}
use substrate_evm_account_ma.Sdk.Signing.{chain_data, digest}

module _ {RuntimeCall Rest Post Err Imbalance Liquidity : Type 0} (h : Host)
    (lib : Library Rest Imbalance) (f : Frame RuntimeCall Rest Post Err Imbalance Liquidity)
    (client : Client) (api : ApiPromise) (who : AccountId) (call : RuntimeCall) (nonce : ℕ) where
  -- The typed data of a call, the account's address with a prefix.
  abbrev pub prefixed : ℕ → TypedData
  prefixed prefix =
      chain_data client api (value api.eip712_chain_id) (h.to_ss58check_with_version who prefix)
        (f.encode call) nonce

  -- What is hashed of the message, its type's hash first.
  abbrev message_bytes : ℕ → Bytes
  message_bytes prefix =
      h.keccak_256 substrate_call_type
      ++ encode_data h (
          text (h.to_ss58check_with_version who prefix)
          ∷ dynamic_bytes (f.encode call)
          ∷ uint256 nonce
          ∷ [])

  abbrev domain_hash : Bytes
  domain_hash = hash_struct h (domain_type none) (
      text api.eip712_name
      ∷ text api.eip712_version
      ∷ uint256 (value api.eip712_chain_id)
      ∷ address api.eip712_verifying_contract_address
      ∷ [])

  -- What is hashed with two prefixes, side by side: all bytes, the messages and the addresses.
  abbrev pub prefix_inputs : ℕ → ℕ → List (Bytes × Bytes)
  prefix_inputs p q =
      (
        0x19 ∷ 0x01 ∷ (domain_hash ++ h.keccak_256 (message_bytes p)),
        0x19 ∷ 0x01 ∷ (domain_hash ++ h.keccak_256 (message_bytes q)),
      )
      ∷ (message_bytes p, message_bytes q)
      ∷ (h.to_ss58check_with_version who p, h.to_ss58check_with_version who q)
      ∷ []

  digests_differ :
      (p q : ℕ)
      → IsAbi h
      → IsSs58 h
      → digest h (prefixed p) ≡ digest h (prefixed q)
      → (p ≡ q) ⊎ Collision h (prefix_inputs p q)
  digests_differ p q L S e = elim (keccak_256-cases h _ _ e) [
    | inr x ↦ inr (inl x)
    | inl inputs ↦
        let parts : domain_hash ++ h.keccak_256 (message_bytes p)
            ≡ domain_hash ++ h.keccak_256 (message_bytes q) =
          cc inputs in
        let messages = (append_injective domain_hash _ domain_hash _ refl parts).1 in
        elim (keccak_256-cases h (message_bytes p) (message_bytes q) messages) [
          | inr x ↦ inr (inr (inl x))
          | inl bytes ↦
              let members =
                (append_injective (h.keccak_256 substrate_call_type) _
                  (h.keccak_256 substrate_call_type) _ refl bytes).1 in
              let first =
                (append_injective _ _ _ _
                  ((L.keccak_256-IsHash _).0 ∙ sym (L.keccak_256-IsHash _).0) members).0 in
              elim (keccak_256-cases h (h.to_ss58check_with_version who p)
                (h.to_ss58check_with_version who q) first) [
                  | inr x ↦ inr (inr (inr (inl x)))
                  | inl texts ↦ inl (S who who p q texts).1
                ]
        ]
  ]

  -- With the chain's prefix, the account's address is as the pallet writes it; with another, what is
  -- signed is not what the pallet checks.
  pub same_message_same_prefix :
      (prefix : ℕ) (s : State Rest Post Err)
      → IsAbi h
      → IsSs58 h
      → IsDomain (eip712_domain h (runtime_config {RuntimeCall = RuntimeCall} h lib))
      → IsApi h (runtime_config {RuntimeCall = RuntimeCall} h lib) s api
      → nonce < 2 ^ 64
      → digest h (prefixed prefix)
        ≡ eip712_message_hash h
            (runtime_config {RuntimeCall = RuntimeCall} h lib)
            who
            (f.encode call)
            nonce
      → (prefix ≡ ss58_prefix) ⊎ Collision h (prefix_inputs prefix ss58_prefix)
  same_message_same_prefix prefix s L S D A small e =
      digests_differ prefix ss58_prefix L S
        (e ∙ sym (data_hash h lib f client who call nonce api s L D A small))
