-- ===== src/Sdk/Refused.antt =====
-- What a client sends for an account whose address it wrote with another prefix.
use substrate_evm_account_ma.Prelude.{
  some, ◌≡◌, ◌≢◌, ◌⊎◌, ◌<◌, ◌^◌, ℕ, Bytes, inl, inr, sym, ◌∙◌, ap, refl, bytes_eq-cases,
}
use mathlib.Core.Option.{some-injective}
use substrate_evm_account_ma.Eip712.Binding.{IsDomain}
use substrate_evm_account_ma.Eip712.Standard.{IsAbi}
use substrate_evm_account_ma.Host.{Host}
use substrate_evm_account_ma.Host.Laws.{Collision, IsSs58}
use substrate_evm_account_ma.Pallet.Frame.{Frame}
use substrate_evm_account_ma.Pallet.Frame.Laws.{IsSaturating}
use substrate_evm_account_ma.Pallet.Message.{eip712_domain, eip712_message_hash}
use substrate_evm_account_ma.Pallet.Types.{Call, State, ValidTransaction}
use substrate_evm_account_ma.Pallet.Validate.{validate_unsigned}
use substrate_evm_account_ma.Pallet.Verdict.{Verdict, accept, reject, panicked}
use substrate_evm_account_ma.Runtime.{Library, runtime_config, ss58_prefix}
use substrate_evm_account_ma.Runtime.Authority.{IsKeyed, scalar}
use substrate_evm_account_ma.Runtime.Laws.{accepted_key}
use substrate_evm_account_ma.Sdk.{
  ApiPromise, Client, MappingAccount, SentCall, get_mapping_account, sign_and_send_evm,
}
use substrate_evm_account_ma.Sdk.Laws.{IsApi, received}
use substrate_evm_account_ma.Sdk.Signing.{IsWallet, digest, signed_recovers}
use substrate_evm_account_ma.Sdk.Prefix.{prefix_inputs, prefixed, same_message_same_prefix}

-- A verdict that is not to accept.
abbrev pub NotAccepted : {A : Type 0} → Verdict A → Type 0
NotAccepted {A} m = (a : A) → m ≢ accept a

accept_or_refused : {A : Type 0} (m : Verdict A) → ((a : A) × (m ≡ accept a)) ⊎ NotAccepted m
accept_or_refused (accept a) = inl (a, refl)
accept_or_refused (reject e) = inr (λ a p. cc)
accept_or_refused panicked = inr (λ a p. cc)

module _ {RuntimeCall Rest Post Err Imbalance Liquidity : Type 0} (h : Host)
    (lib : Library Rest Imbalance) (f : Frame RuntimeCall Rest Post Err Imbalance Liquidity)
    (client : Client) (api : ApiPromise) (key : Bytes) (call : RuntimeCall) where
  -- What the pallet checks of a call that was sent, and what the client signed.
  abbrev checked_hash : SentCall → Bytes
  checked_hash sent =
      eip712_message_hash h (runtime_config {RuntimeCall = RuntimeCall} h lib) (h.blake2_256 key)
        (f.encode call) sent.nonce

  abbrev signed_digest : ℕ → SentCall → Bytes
  signed_digest prefix sent =
      digest h (prefixed h lib f client api (h.blake2_256 key) call sent.nonce prefix)

  -- The signature of a call recovers to another key with the same Blake2 hash.
  pub record IsForged (sent : SentCall) : Type 0 where
    pub other : Bytes
    pub recovers :
        h.secp256k1_ecdsa_recover_compressed sent.signature (checked_hash sent) ≡ some other
    pub differs : other ≢ key
    pub same_hash : h.blake2_256 other ≡ h.blake2_256 key

  -- What was signed and what is checked are two hashes with one scalar.
  abbrev pub IsCongruent : ℕ → SentCall → Type 0
  IsCongruent prefix sent =
      (signed_digest prefix sent ≢ checked_hash sent)
      × (scalar (signed_digest prefix sent) ≡ scalar (checked_hash sent))

  module _ (L : IsAbi h) (K : IsKeyed h) (B : IsSs58 h) (S : IsSaturating f)
      (W : IsWallet h client key)
      (D : IsDomain (eip712_domain h (runtime_config {RuntimeCall = RuntimeCall} h lib))) where
    -- An accepted call that was sent with another prefix is a forgery, or a collision.
    accepted_prefix :
        (prefix : ℕ) (s : State Rest Post Err) (msg : Bytes) (account : MappingAccount)
        (sent : SentCall) (v : ValidTransaction)
        → prefix ≢ ss58_prefix
        → IsApi h (runtime_config {RuntimeCall = RuntimeCall} h lib) s api
        → sent.nonce < 2 ^ 64
        → get_mapping_account client prefix msg ≡ some account
        → sign_and_send_evm client (f.encode call) api account ≡ some sent
        → validate_unsigned h f
            (runtime_config h lib)
            s
            (Call.meta_call (received h lib f client key call sent))
          ≡ accept v
        → IsForged sent
          ⊎ (IsCongruent prefix sent
              ⊎ Collision h (
                  prefix_inputs h lib f client api
                    (h.blake2_256 key)
                    call
                    sent.nonce
                    prefix
                    ss58_prefix))
    accepted_prefix prefix s msg account sent v other A small made e accepts =
        let (found, recovers, decoded) =
          accepted_key h lib f S s (received h lib f client key call sent) v accepts in
        let owned : h.blake2_256 found ≡ h.blake2_256 key =
          some-injective _ _
            (sym (K.account_id32_decode_lem _ (K.length-blake2_256 found)) ∙ decoded) in
        elim (bytes_eq-cases found key) [
          | inr differs ↦
              inl (record {
                other = found;
                recovers = recovers;
                differs = differs;
                same_hash = owned;
              })
          | inl same ↦
              let signed =
                signed_recovers client h key api prefix msg (f.encode call) account sent W made e in
              let scalars =
                K.recover_scalar sent.signature (signed_digest prefix sent) (checked_hash sent) key
                  signed (recovers ∙ ap some same) in
              elim (bytes_eq-cases (signed_digest prefix sent) (checked_hash sent)) [
                | inr hashes ↦ inr (inl (hashes, scalars))
                | inl hashes ↦
                    elim (same_message_same_prefix h lib f client api (h.blake2_256 key) call
                      sent.nonce prefix s L B D A small hashes) [
                        | inl p ↦ absurd (other p)
                        | inr x ↦ inr (inr x)
                      ]
              ]
        ]

    -- What a client sends for an account whose address it wrote with another prefix than the chain's,
    -- as the default of the client is, is not accepted by the chain, in the state that it read; or the signature
    -- recovers to another key with the same Blake2 hash, or what was signed and what the pallet checks
    -- are two hashes with one scalar, or one of the three pairs of inputs of the hashes is a Keccak
    -- collision. Assumes IsWallet of the client, IsApi of what it reads, IsAbi and IsKeyed of the host,
    -- the documented behaviour of SS58, sizes of the domain's fields as in their types, a nonce that is
    -- a u64, and that conversions of numbers saturate.
    pub other_prefix_refused :
        (prefix : ℕ) (s : State Rest Post Err) (msg : Bytes) (account : MappingAccount)
        (sent : SentCall)
        → prefix ≢ ss58_prefix
        → IsApi h (runtime_config {RuntimeCall = RuntimeCall} h lib) s api
        → sent.nonce < 2 ^ 64
        → get_mapping_account client prefix msg ≡ some account
        → sign_and_send_evm client (f.encode call) api account ≡ some sent
        → NotAccepted (
            validate_unsigned h f
              (runtime_config h lib)
              s
              (Call.meta_call (received h lib f client key call sent)))
          ⊎ (IsForged sent
              ⊎ (IsCongruent prefix sent
                  ⊎ Collision h (
                      prefix_inputs h lib f client api
                        (h.blake2_256 key)
                        call
                        sent.nonce
                        prefix
                        ss58_prefix)))
    other_prefix_refused prefix s msg account sent other A small made e =
        elim (accept_or_refused (
          validate_unsigned h f (runtime_config h lib) s
            (Call.meta_call (received h lib f client key call sent)))) [
              | inl (v, accepts) ↦
                  inr (accepted_prefix prefix s msg account sent v other A small made e accepts)
              | inr refused ↦ inl refused
            ]
