-- ===== src/Sdk/Signing.antt =====
-- What a client signs and sends, and how its signature recovers.
use mathlib.Core.Path.{ap₂}
use mathlib.Core.Option.{some-injective}
use substrate_evm_account_ma.Prelude.{
  ℕ, Option, none, some, Bytes, List, [], ◌∷◌, ◌++◌, ◌≡◌, as_bytes, refl, ap, sym, ◌∙◌,
}
use substrate_evm_account_ma.Eip712.Standard.{
  text, dynamic_bytes, uint256, address, hash_struct, typed_data_hash, domain_type,
}
use substrate_evm_account_ma.Encode.{U256}
use substrate_evm_account_ma.Encode.Laws.{value}
use substrate_evm_account_ma.Host.{Host}
use substrate_evm_account_ma.Pallet.Message.{substrate_call_type}
use substrate_evm_account_ma.Sdk.{
  ◌>>=◌, ApiPromise, Client, Field, MappingAccount, SentCall, TypedData, create_eip712_domain,
  create_substrate_call, create_typed_data, ether_address_to_compressed_pubkey, get_mapping_account,
  sign_and_send_evm, Eip712Domain, SubstrateCall,
}

-- `encodeType` of EIP-712, of a struct without structs in it.
abbrev more_fields : List Field → Bytes
more_fields [] = as_bytes ")"
more_fields (f ∷ fs) = as_bytes "," ++ (f.type ++ (as_bytes " " ++ (f.name ++ more_fields fs)))

abbrev fields_text : List Field → Bytes
fields_text [] = as_bytes ")"
fields_text (f ∷ fs) = f.type ++ (as_bytes " " ++ (f.name ++ more_fields fs))

abbrev pub encode_type : Bytes → List Field → Bytes
encode_type name fields = name ++ (as_bytes "(" ++ fields_text fields)

-- The standard's hash of the typed data.
abbrev pub digest : Host → TypedData → Bytes
digest h d =
    typed_data_hash h
      (hash_struct h (encode_type (as_bytes "EIP712Domain") d.domain_type) (
        text d.domain.name
        ∷ text d.domain.version
        ∷ uint256 d.domain.chain_id
        ∷ address d.domain.verifying_contract
        ∷ []))
      (hash_struct h (encode_type d.primary_type d.call_type)
        (text d.message.who ∷ dynamic_bytes d.message.call_data ∷ uint256 d.message.nonce ∷ []))

-- Documented behaviour of the wallet with a key, and of the libraries: what it signs recovers to the
-- key, typed data by the standard's hash; Blake2 and SS58 are the chain's; numbers are exact.
pub record IsWallet (h : Host) (client : Client) (key : Bytes) : Type 0 where
  pub signs_messages :
      (msg sign : Bytes)
      → client.sign_message msg ≡ some sign
      → client.secp256k1_compress (client.recover_public_key (client.hash_message msg) sign) ≡ key
  pub signs_typed_data :
      (d : TypedData) (signature : Bytes)
      → client.sign_typed_data d ≡ some signature
      → h.secp256k1_ecdsa_recover_compressed signature (digest h d) ≡ some key
  pub blake2 : (x : Bytes) → client.blake2_as_u8a x ≡ h.blake2_256 x
  pub addresses :
      (account : Bytes) (prefix : ℕ)
      → client.encode_address account prefix ≡ h.to_ss58check_with_version account prefix
  pub u256_exact : (n : U256) (v : ℕ) → client.u256_to_number n ≡ some v → v ≡ value n
  pub u64_exact : (n v : ℕ) → client.u64_to_number n ≡ some v → v ≡ n

>>=-some :
    {A B : Type 0} (m : Option A) (k : A → Option B) {b : B}
    → (m >>= k) ≡ some b
    → (a : A) × (m ≡ some a) × (k a ≡ some b)
>>=-some none k e = cc
>>=-some (some a) k e = (a, refl, e)

-- The client's two struct types are those of the pallet.
types_agree :
    (domain : Eip712Domain) (message : SubstrateCall)
    → (encode_type (as_bytes "EIP712Domain") (create_typed_data domain message).domain_type
        ≡ domain_type none)
      × (encode_type
            (create_typed_data domain message).primary_type
            (create_typed_data domain message).call_type
          ≡ substrate_call_type)
types_agree domain message = (refl, refl)

module _ (client : Client) where
  pub mapped_address :
      (h : Host) (key : Bytes) (prefix : ℕ) (msg : Bytes) (account : MappingAccount)
      → IsWallet h client key
      → get_mapping_account client prefix msg ≡ some account
      → account.address ≡ h.to_ss58check_with_version (h.blake2_256 key) prefix
  unfolding get_mapping_account ether_address_to_compressed_pubkey
  mapped_address h key prefix msg account W made =
      let (pubkey, recovered, built) = >>=-some _ _ made in
      let (sign, signs, compressed) = >>=-some _ _ recovered in
      let same : pubkey ≡ key =
        sym (some-injective _ _ compressed) ∙ W.signs_messages msg sign signs in
      ap (λ (a : MappingAccount). a.address) (sym (some-injective _ _ built))
      ∙ (W.addresses _ prefix
          ∙ ap (λ x. h.to_ss58check_with_version x prefix) (W.blake2 pubkey ∙ ap h.blake2_256 same))

  -- The typed data of a call, in the domain of the chain.
  abbrev pub chain_data : ApiPromise → ℕ → Bytes → Bytes → ℕ → TypedData
  chain_data api chain_id who extrinsic nonce =
      create_typed_data
        (record {
          name = api.eip712_name;
          version = api.eip712_version;
          chain_id = chain_id;
          verifying_contract = api.eip712_verifying_contract_address;
        })
        (record { who = who; call_data = extrinsic; nonce = nonce })

  -- What goes into a call that is sent.
  pub record WasSent (extrinsic : Bytes) (api : ApiPromise) (account : MappingAccount)
      (sent : SentCall) : Type 0 where
    pub stored : ℕ
    pub chain_id : ℕ
    pub asked : api.account_nonce account.address ≡ some stored
    pub nonce : client.u64_to_number stored ≡ some sent.nonce
    pub chain : client.u256_to_number api.eip712_chain_id ≡ some chain_id
    pub signed :
        client.sign_typed_data (chain_data api chain_id account.address extrinsic sent.nonce)
        ≡ some sent.signature
    pub same_address : sent.address ≡ account.address
    pub same_call_data : sent.call_data ≡ extrinsic
    pub no_tip : sent.tip ≡ none

  pub was_sent :
      (extrinsic : Bytes) (api : ApiPromise) (account : MappingAccount) (sent : SentCall)
      → sign_and_send_evm client extrinsic api account ≡ some sent
      → WasSent extrinsic api account sent
  unfolding sign_and_send_evm create_substrate_call create_eip712_domain
  was_sent extrinsic api account sent e =
      let (call, called, e1) = >>=-some _ _ e in
      let (domain, named, e2) = >>=-some _ _ e1 in
      let (signature, signed, e3) = >>=-some _ _ e2 in
      let (stored, asked, e4) = >>=-some _ _ called in
      let (nonce, exact, e5) = >>=-some _ _ e4 in
      let (chain_id, chain, e6) = >>=-some _ _ named in
      let calls = some-injective _ _ e5 in
      let domains = some-injective _ _ e6 in
      let sends = some-injective _ _ e3 in
      let number : nonce ≡ sent.nonce =
        ap (λ (x : SubstrateCall). x.nonce) calls ∙ ap (λ (x : SentCall). x.nonce) sends in
      record {
        stored = stored;
        chain_id = chain_id;
        asked = asked;
        nonce = exact ∙ ap some number;
        chain = chain;
        signed =
            ap (λ n. client.sign_typed_data (chain_data api chain_id account.address extrinsic n))
              (sym number)
            ∙ (ap₂ (λ d x. client.sign_typed_data (create_typed_data d x)) domains calls
                ∙ (signed ∙ ap some (ap (λ (x : SentCall). x.signature) sends)));
        same_address = sym (ap (λ (x : SentCall). x.address) sends);
        same_call_data = sym (
            ap (λ (x : SubstrateCall). x.call_data) calls
            ∙ ap (λ (x : SentCall). x.call_data) sends);
        no_tip = sym (ap (λ (x : SentCall). x.tip) sends);
      }

module _ (client : Client) (h : Host) (key : Bytes) (api : ApiPromise) where
  -- The client's signature recovers to the key over what it signed.
  pub signed_recovers :
      (prefix : ℕ) (msg extrinsic : Bytes) (account : MappingAccount) (sent : SentCall)
      → IsWallet h client key
      → get_mapping_account client prefix msg ≡ some account
      → sign_and_send_evm client extrinsic api account ≡ some sent
      → h.secp256k1_ecdsa_recover_compressed sent.signature (
          digest h (
            chain_data client api
              (value api.eip712_chain_id)
              (h.to_ss58check_with_version (h.blake2_256 key) prefix)
              extrinsic
              sent.nonce))
        ≡ some key
  signed_recovers prefix msg extrinsic account sent W made e =
      let x = was_sent client extrinsic api account sent e in
      let address = mapped_address client h key prefix msg account W made in
      let chain = W.u256_exact api.eip712_chain_id x.chain_id x.chain in
      sym (
        ap₂
          (λ id address.
            h.secp256k1_ecdsa_recover_compressed sent.signature
              (digest h (chain_data client api id address extrinsic sent.nonce)))
          chain address)
      ∙ W.signs_typed_data _ sent.signature x.signed
