-- ===== src/Pallet/Message/Standard.antt =====
-- The message hash against EIP-712.
use substrate_evm_account_ma.Prelude.{
  ◌∙◌, ap, as_bytes, none, [], ◌≡◌, ◌^◌, ◌∷◌, List, ◌<◌, ℕ, Bytes,
}
use substrate_evm_account_ma.Account.{AccountId}
use substrate_evm_account_ma.Eip712.Binding.{IsDomain}
use substrate_evm_account_ma.Eip712.Standard.{
  IsAbi, Member, text, dynamic_bytes, uint256, hash_struct, typed_data_hash, domain_type,
  domain_members, separator-hash_struct,
}
use substrate_evm_account_ma.Host.{Host}
use substrate_evm_account_ma.Host.Laws.{AllWords}
use substrate_evm_account_ma.Pallet.Frame.{Config}
use substrate_evm_account_ma.Pallet.Message.{
  substrate_call_type, message_tokens, eip712_domain, eip712_message_hash,
}
use substrate_evm_account_ma.Pallet.Message.Binding.{hash_input}

module _ {RuntimeCall Rest Imbalance : Type 0} (h : Host)
    (c : Config RuntimeCall Rest Imbalance) where
  -- The members of `SubstrateCall(string who,bytes callData,uint64 nonce)`.
  abbrev pub call_members : AccountId → Bytes → ℕ → List Member
  call_members who call_data nonce =
      text (h.to_ss58check_with_version who c.ss58_prefix)
      ∷ dynamic_bytes call_data
      ∷ uint256 nonce
      ∷ []

module _ {RuntimeCall Rest Imbalance : Type 0} (h : Host) (L : IsAbi h)
    (c : Config RuntimeCall Rest Imbalance) where
  message-hash_struct :
      (who : AccountId) (call_data : Bytes) (nonce : ℕ)
      → nonce < 2 ^ 64
      → h.keccak_256 (h.abi_encode (message_tokens h c who call_data nonce))
        ≡ hash_struct h substrate_call_type (call_members h c who call_data nonce)
  message-hash_struct who call_data nonce fits =
      let sized : AllWords (message_tokens h c who call_data nonce) = (
        (L.keccak_256-IsHash _).0,
        (
          (L.keccak_256-IsHash _).0,
          ((L.keccak_256-IsHash _).0, (L.u256_from_u64-IsU256 nonce fits, tt)),
        ),
      ) in
      ap h.keccak_256 (
        L.abi_encode_words (message_tokens h c who call_data nonce) sized
        ∙ rw (L.u256_from_u64_value nonce fits))

  -- What an account signs is the standard's hash of its call as typed data: of the struct
  -- `SubstrateCall` with the account's SS58 text, the encoded call and the nonce, in the domain of
  -- the configuration, without a salt. Assumes IsAbi of the host, a domain's fields of the sizes that
  -- their types give, and a nonce that is a `u64`.
  pub eip712_message_hash-typed_data_hash :
      (who : AccountId) (call_data : Bytes) (nonce : ℕ)
      → IsDomain (eip712_domain h c)
      → nonce < 2 ^ 64
      → eip712_message_hash h c who call_data nonce
        ≡ typed_data_hash h
            (hash_struct h (domain_type none) (domain_members (eip712_domain h c)))
            (hash_struct h
              (as_bytes "SubstrateCall(string who,bytes callData,uint64 nonce)")
              (call_members h c who call_data nonce))
  unfolding eip712_message_hash
  eip712_message_hash-typed_data_hash who call_data nonce w fits = ap h.keccak_256 (
      hash_input h c who call_data nonce
      ∙ rw (
        separator-hash_struct h L (eip712_domain h c) w,
        message-hash_struct who call_data nonce fits,
      ))
