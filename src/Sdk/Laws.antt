-- ===== src/Sdk/Laws.antt =====
-- What a client sends is what the chain accepts.

use substrate_evm_account_ma.Prelude.{ℕ, some, Bytes, ◌≡◌, ◌<◌, ◌^◌, ap, sym, ◌∙◌}
use substrate_evm_account_ma.Prelude.Checked.{returns}
use substrate_evm_account_ma.Account.{AccountId}
use substrate_evm_account_ma.Eip712.Binding.{IsDomain}
use substrate_evm_account_ma.Eip712.Standard.{IsAbi}
use substrate_evm_account_ma.Encode.Laws.{value}
use substrate_evm_account_ma.Host.{Host}
use substrate_evm_account_ma.Pallet.Frame.{Frame, Config}
use substrate_evm_account_ma.Pallet.Frame.Laws.{IsSaturating}
use substrate_evm_account_ma.Pallet.Message.{eip712_domain, eip712_message_hash}
use substrate_evm_account_ma.Pallet.Message.Standard.{eip712_message_hash-typed_data_hash}
use substrate_evm_account_ma.Pallet.Types.{Call, MetaCall, State}
use substrate_evm_account_ma.Pallet.Validate.{validate_unsigned}
use substrate_evm_account_ma.Pallet.Validate.Accept.{IsFunded, accepted, validate_unsigned_complete}
use substrate_evm_account_ma.Pallet.Validate.Priority.{HasRoom}
use substrate_evm_account_ma.Pallet.Verdict.{accept}
use substrate_evm_account_ma.Runtime.{Library, runtime_config, ss58_prefix}
use substrate_evm_account_ma.Runtime.Authority.{IsKeyed}
use substrate_evm_account_ma.Sdk.Signing.{
  digest, IsWallet, mapped_address, chain_data, was_sent, signed_recovers,
}
use substrate_evm_account_ma.Sdk.{
  ApiPromise, Client, MappingAccount, SentCall, get_mapping_account, sign_and_send_evm,
}

-- What the client reads of a chain: the constants of the pallet, and the nonces of accounts by their
-- addresses.
pub record IsApi {RuntimeCall Rest Imbalance Post Err : Type 0} (h : Host)
    (c : Config RuntimeCall Rest Imbalance) (s : State Rest Post Err) (api : ApiPromise)
    : Type 0 where
  pub name : api.eip712_name ≡ c.eip712_name
  pub version : api.eip712_version ≡ c.eip712_version
  pub chain_id : api.eip712_chain_id ≡ c.eip712_chain_id
  pub verifying_contract :
      api.eip712_verifying_contract_address ≡ c.eip712_verifying_contract_address
  pub account_nonce :
      (account : AccountId) (prefix n : ℕ)
      → api.account_nonce (h.to_ss58check_with_version account prefix) ≡ some n
      → n ≡ s.account_nonce account

module _ {RuntimeCall Rest Post Err Imbalance Liquidity : Type 0} (h : Host)
    (lib : Library Rest Imbalance) (f : Frame RuntimeCall Rest Post Err Imbalance Liquidity)
    (client : Client) where
  -- The meta call that the chain makes of what was sent, of the account of a key.
  abbrev pub received : Bytes → RuntimeCall → SentCall → MetaCall RuntimeCall
  received key call sent = record {
    who = h.blake2_256 key;
    call = call;
    nonce = sent.nonce;
    signature = sent.signature;
    tip = sent.tip;
  }

  -- The typed data in the chain's domain is hashed as the pallet hashes the call.
  pub data_hash :
      (who : AccountId) (call : RuntimeCall) (nonce : ℕ) (api : ApiPromise)
      (s : State Rest Post Err)
      → IsAbi h
      → IsDomain (eip712_domain h (runtime_config {RuntimeCall = RuntimeCall} h lib))
      → IsApi h (runtime_config {RuntimeCall = RuntimeCall} h lib) s api
      → nonce < 2 ^ 64
      → digest h (
          chain_data client api
            (value api.eip712_chain_id)
            (h.to_ss58check_with_version who ss58_prefix)
            (f.encode call)
            nonce)
        ≡ eip712_message_hash h
            (runtime_config {RuntimeCall = RuntimeCall} h lib)
            who
            (f.encode call)
            nonce
  data_hash who call nonce api s L D A fits =
      rw (A.name, A.version, A.chain_id, A.verifying_contract)
        (sym (
          eip712_message_hash-typed_data_hash h L (runtime_config {RuntimeCall = RuntimeCall} h lib)
            who (f.encode call) nonce D fits))

  module _ (key : Bytes) (W : IsWallet h client key) where
    -- What a client sends for a mapped account, whose address it wrote with the chain's prefix, goes
    -- out under that account's address and is accepted by the chain: as a call of the bytes signed, if
    -- the account's balance covers the fees and there is room in a block. Assumes IsWallet of the
    -- client, IsApi of what it reads, IsAbi and IsKeyed of the host, sizes of the domain's fields as
    -- in their types, a nonce that is a u64, and that conversions of numbers saturate.
    pub sent_call_accepted :
        (s : State Rest Post Err) (api : ApiPromise) (msg : Bytes) (account : MappingAccount)
        (call : RuntimeCall) (sent : SentCall)
        → IsAbi h
        → IsKeyed h
        → IsSaturating f
        → IsDomain (eip712_domain h (runtime_config {RuntimeCall = RuntimeCall} h lib))
        → IsApi h (runtime_config {RuntimeCall = RuntimeCall} h lib) s api
        → s.account_nonce (h.blake2_256 key) < 2 ^ 64
        → get_mapping_account client ss58_prefix msg ≡ some account
        → sign_and_send_evm client (f.encode call) api account ≡ some sent
        → IsFunded h f (runtime_config h lib) (received key call sent) s.rest
        → HasRoom h f (runtime_config h lib) (received key call sent)
        → (sent.address ≡ h.to_ss58check_with_version (h.blake2_256 key) ss58_prefix)
          × ((p : ℕ) × (validate_unsigned h f
                  (runtime_config h lib)
                  s
                  (Call.meta_call (received key call sent))
                ≡ accept (accepted h f (runtime_config h lib) (received key call sent) p)))
    sent_call_accepted s api msg account call sent L K S D A small made e funded room =
        let who = h.blake2_256 key in
        let x = was_sent client (f.encode call) api account sent e in
        let address = mapped_address client h key ss58_prefix msg account W made in
        let current : sent.nonce ≡ s.account_nonce who =
          W.u64_exact x.stored sent.nonce x.nonce
          ∙ A.account_nonce who ss58_prefix x.stored
              (ap api.account_nonce (sym address) ∙ x.asked) in
        let recovers =
          signed_recovers client h key api ss58_prefix msg (f.encode call) account sent W made e in
        let hashes = data_hash who call sent.nonce api s L D A (rw current small) in
        (
          x.same_address ∙ address,
          validate_unsigned_complete h f (runtime_config h lib) s (received key call sent) S
              (record {
                signed = (
                  key,
                  ap (h.secp256k1_ecdsa_recover_compressed sent.signature) (sym hashes) ∙ recovers,
                  ap returns (K.account_id32_decode_lem who (K.length-blake2_256 key)),
                );
                current = current;
                funded = funded;
                room = room;
              }),
        )
