-- ===== src/Runtime/Authority.antt =====
-- Whose key may act for an account of the runtime, and how far one signature reaches.
use substrate_evm_account_ma.Prelude.{
  some, Bytes, ◌≡◌, ◌≢◌, ◌↔◌, ◌⊎◌, inl, inr, ℕ, ◌<◌, ◌^◌, ◌%◌, ◌*◌, ◌+◌, [], ◌∷◌, Option, List,
  length, bytes_eq-cases, ◌∙◌, sym,
}
use mathlib.Core.Option.{some-injective}
use substrate_evm_account_ma.Eip712.Binding.{IsDomain}
use substrate_evm_account_ma.Host.{Host}
use substrate_evm_account_ma.Host.Laws.{IsEthabi, IsSs58, Collision}
use substrate_evm_account_ma.Pallet.Frame.{Frame}
use substrate_evm_account_ma.Pallet.Frame.Laws.{IsSaturating}
use substrate_evm_account_ma.Pallet.Message.{eip712_message_hash, eip712_domain}
use substrate_evm_account_ma.Pallet.Message.Binding.{
  eip712_message_hash_binding, IsSameMessage, message_inputs,
}
use substrate_evm_account_ma.Pallet.Types.{ValidTransaction, MetaCall, State, Call}
use substrate_evm_account_ma.Pallet.Validate.{validate_unsigned}
use substrate_evm_account_ma.Pallet.Validate.Accept.{recovered}
use substrate_evm_account_ma.Pallet.Verdict.{accept}
use substrate_evm_account_ma.Runtime.{runtime_config, Library}
use substrate_evm_account_ma.Runtime.Laws.{accepted_key}

-- The order of the curve secp256k1.
abbrev pub curve_order : ℕ
curve_order = 115792089237316195423570985008687907852837564279074904382605163141518161494337

-- The number of big-endian bytes, read after others.
abbrev pub be_number : ℕ → Bytes → ℕ
be_number before [] = before
be_number before (x ∷ xs) = be_number (256 * before + x) xs

-- What ECDSA signs of a hash.
abbrev pub scalar : Bytes → ℕ
scalar hash = be_number 0 hash % curve_order

-- Documented behaviour of the keys' and accounts' libraries: a Blake2 hash has 32 bytes; an account
-- is decoded from 32 bytes as these; over one signature, the key recovered from a message's hash
-- tells the scalar of the hash.
pub record IsKeyed (h : Host) : Type 0 where
  pub length-blake2_256 : (x : Bytes) → length (h.blake2_256 x) ≡ 32
  pub account_id32_decode_lem : (x : Bytes) → length x ≡ 32 → h.account_id32_decode x ≡ some x
  pub recover_scalar :
      (signature hash hash' key : Bytes)
      → h.secp256k1_ecdsa_recover_compressed signature hash ≡ some key
      → h.secp256k1_ecdsa_recover_compressed signature hash' ≡ some key
      → scalar hash ≡ scalar hash'

module _ {RuntimeCall Rest Post Err Imbalance Liquidity : Type 0} (h : Host)
    (lib : Library Rest Imbalance) (f : Frame RuntimeCall Rest Post Err Imbalance Liquidity) where
  -- The key that the runtime recovers from a call, if there is one.
  abbrev pub signing_key : MetaCall RuntimeCall → Option Bytes
  signing_key m = recovered h f (runtime_config h lib) m

  -- What the signature of a call signs.
  abbrev pub signed_hash : MetaCall RuntimeCall → Bytes
  signed_hash m =
      eip712_message_hash h (runtime_config {RuntimeCall = RuntimeCall} h lib) m.who
        (f.encode m.call) m.nonce

  -- The keys of the two calls are two with one Blake2 hash.
  pub record KeysCollide (m m' : MetaCall RuntimeCall) : Type 0 where
    pub key : Bytes
    pub key' : Bytes
    pub of_first : signing_key m ≡ some key
    pub of_second : signing_key m' ≡ some key'
    pub differ : key ≢ key'
    pub same_hash : h.blake2_256 key ≡ h.blake2_256 key'

  -- The hashes that the two calls sign are two with one scalar.
  abbrev pub HashesCongruent : MetaCall RuntimeCall → MetaCall RuntimeCall → Type 0
  HashesCongruent m m' =
      (signed_hash m ≢ signed_hash m') × (scalar (signed_hash m) ≡ scalar (signed_hash m'))

  -- The two calls are the same but for their tips.
  abbrev pub SameMessage : MetaCall RuntimeCall → MetaCall RuntimeCall → Type 0
  SameMessage m m' =
      IsSameMessage h (runtime_config {RuntimeCall = RuntimeCall} h lib)
        (runtime_config {RuntimeCall = RuntimeCall} h lib) m.who m'.who (f.encode m.call)
        (f.encode m'.call) m.nonce m'.nonce

  -- What is hashed for the two calls, side by side.
  abbrev pub signed_inputs : MetaCall RuntimeCall → MetaCall RuntimeCall → List (Bytes × Bytes)
  signed_inputs m m' =
      message_inputs h (runtime_config {RuntimeCall = RuntimeCall} h lib)
        (runtime_config {RuntimeCall = RuntimeCall} h lib) m.who m'.who (f.encode m.call)
        (f.encode m'.call) m.nonce m'.nonce

  module _ (K : IsKeyed h) (S : IsSaturating f) where
    -- The caller of an accepted call is the hash of the key.
    accepted_account :
        (s : State Rest Post Err) (m : MetaCall RuntimeCall) (v : ValidTransaction)
        → validate_unsigned h f (runtime_config h lib) s (Call.meta_call m) ≡ accept v
        → (key : Bytes) × (signing_key m ≡ some key) × (h.blake2_256 key ≡ m.who)
    accepted_account s m v e =
        let (key, recovers, decoded) = accepted_key h lib f S s m v e in
        (key, recovers, cc (K.account_id32_decode_lem (h.blake2_256 key) (K.length-blake2_256 key)))

    -- Accepted calls, in whatever states, have one caller exactly if their signatures recover to
    -- one key, or the two keys are a Blake2 collision. Assumes IsKeyed of the host and that
    -- conversions of numbers saturate.
    pub one_key_one_account :
        (s s' : State Rest Post Err) (m m' : MetaCall RuntimeCall) (v v' : ValidTransaction)
        → validate_unsigned h f (runtime_config h lib) s (Call.meta_call m) ≡ accept v
        → validate_unsigned h f (runtime_config h lib) s' (Call.meta_call m') ≡ accept v'
        → ((m.who ≡ m'.who) ↔ (signing_key m ≡ signing_key m')) ⊎ KeysCollide m m'
    one_key_one_account s s' m m' v v' e e' =
        let (key, recovers, hashed) = accepted_account s m v e in
        let (key', recovers', hashed') = accepted_account s' m' v' e' in
        elim (bytes_eq-cases key key') [
          | inl keys ↦ inl (λ p. cc, λ p. cc)
          | inr differ ↦ elim (bytes_eq-cases m.who m'.who) [
            | inl account ↦ inr (record {
              key = key;
              key' = key';
              of_first = recovers;
              of_second = recovers';
              differ = differ;
              same_hash = cc;
            })
            | inr accounts ↦ inl (
              λ p. absurd (accounts p),
              λ p. absurd (differ (some-injective key key' (sym recovers ∙ (p ∙ recovers')))),
            )
          ]
        ]

    -- The reach of a signature: accepted calls, in whatever states, of one account with one
    -- signature sign one message, of the same call data and nonce; or the two keys are a Blake2
    -- collision, or the hashes signed are two with one scalar, or one of the seven pairs of inputs
    -- of these hashes is a Keccak collision. Assumes IsKeyed of the host, the documented behaviour
    -- of ethabi and SS58, sizes of the domain's fields as in their types, nonces that are u64s, and
    -- that conversions of numbers saturate.
    pub one_signature_one_message :
        (s s' : State Rest Post Err) (m m' : MetaCall RuntimeCall) (v v' : ValidTransaction)
        → IsEthabi h
        → IsSs58 h
        → IsDomain (eip712_domain h (runtime_config {RuntimeCall = RuntimeCall} h lib))
        → m.nonce < 2 ^ 64
        → m'.nonce < 2 ^ 64
        → validate_unsigned h f (runtime_config h lib) s (Call.meta_call m) ≡ accept v
        → validate_unsigned h f (runtime_config h lib) s' (Call.meta_call m') ≡ accept v'
        → m.who ≡ m'.who
        → m.signature ≡ m'.signature
        → SameMessage m m'
          ⊎ (KeysCollide m m' ⊎ (HashesCongruent m m' ⊎ Collision h (signed_inputs m m')))
    one_signature_one_message s s' m m' v v' L B D fits fits' e e' account signature =
        elim (one_key_one_account s s' m m' v v' e e') [
          | inr x ↦ inr (inl x)
          | inl keys ↦
              let (key, recovers, hashed) = accepted_account s m v e in
              let same = sym (keys.0 account) ∙ recovers in
              let scalars =
                K.recover_scalar m.signature (signed_hash m) (signed_hash m') key recovers (cc) in
              elim (bytes_eq-cases (signed_hash m) (signed_hash m')) [
                | inr differ ↦ inr (inr (inl (differ, scalars)))
                | inl hashes ↦
                    elim (eip712_message_hash_binding h L B _ _ D D m.who m'.who (f.encode m.call)
                      (f.encode m'.call) m.nonce m'.nonce fits fits' hashes) [
                        | inl message ↦ inl message
                        | inr x ↦ inr (inr (inr x))
                      ]
              ]
        ]
