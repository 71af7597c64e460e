-- ===== src/Mock/Scenario/Laws.antt =====
-- The tests of the converters and of the signed message against the pallet.
use mathlib.Core.Path.{ap₂}
use substrate_evm_account_ma.Eip712.{separator}
use substrate_evm_account_ma.Encode.{SolidityDataType, encode_packed}
use substrate_evm_account_ma.Prelude.{
  subst, drop, ◌∙◌, sym, ◌∷◌, [], Option, none, some, Bytes, ◌≡◌, ◌↔◌, bytes_eq_iff, bytes_eq-cases,
  inl, inr, refl, arith, ap,
}
use substrate_evm_account_ma.Prelude.Checked.{Checked, returns, panics, expect, ◌>>=◌, ◌>>◌}
use substrate_evm_account_ma.Account.{AccountId, evm_transparent_convert}
use substrate_evm_account_ma.Account.Laws.{
  IsH160, evm_transparent_convert_lem, slice_rest, copy_address, copy_postfix,
}
use substrate_evm_account_ma.Host.{Host, Token}
use substrate_evm_account_ma.Mock.{MockLibrary, mock_config}
use substrate_evm_account_ma.Mock.Scenario.{
  assert_eq, uncompressed_key, transparent_account, transparent_text,
  evm_transparent_converter_works, eip712, test_call, signing_message, test_domain,
}
use substrate_evm_account_ma.Pallet.Benchmark.{account_text, call_data, signature}
use substrate_evm_account_ma.Pallet.Frame.{Frame}
use substrate_evm_account_ma.Pallet.Message.{eip712_message_hash, substrate_call_type}
use substrate_evm_account_ma.Pallet.Validate.Accept.{IsSigned}

assert_eq_iff : (a b : Bytes) → (assert_eq a b ≡ returns tt) ↔ (a ≡ b)
assert_eq_iff a b = ground (arith, bytes_eq_iff a b)

module _ {Rest Imbalance : Type 0} (h : Host) (lib : MockLibrary Rest Imbalance) where
  -- The message as a function of the account's text and the call.
  abbrev message_of : Bytes → Bytes → Bytes
  message_of text bytes = h.keccak_256 (
      encode_packed (
        SolidityDataType.string (0x19 ∷ 0x01 ∷ [])
        ∷ SolidityDataType.bytes (separator h (test_domain h lib))
        ∷ SolidityDataType.bytes (
            h.keccak_256 (
              h.abi_encode (
                Token.fixed_bytes (h.keccak_256 substrate_call_type)
                ∷ Token.fixed_bytes (h.keccak_256 text)
                ∷ Token.fixed_bytes (h.keccak_256 bytes)
                ∷ Token.uint (h.u256_from_u64 0)
                ∷ [])))
        ∷ []))

asserted :
    (h : Host) (x expected text : Bytes)
    → ((assert_eq x expected
          >> (assert_eq x expected >> assert_eq (h.to_ss58check_with_version x 42) text))
        ≡ returns tt)
      ↔ ((returns (some x) ≡ returns (some expected))
          × (h.to_ss58check_with_version expected 42 ≡ text))
asserted h x expected text = elim (bytes_eq-cases x expected) [
  | inl same ↦
      let texts = assert_eq_iff (h.to_ss58check_with_version x 42) text in
      rw ((assert_eq_iff x expected).1 same) (
        λ p. (
          ap (λ y. returns (some y)) same,
          subst (λ y. h.to_ss58check_with_version y 42 ≡ text) same (texts.0 p),
        ),
        λ (q, e). texts.1 (subst (λ y. h.to_ss58check_with_version y 42 ≡ text) (sym same) e),
      )
  | inr differ ↦
      let stops : assert_eq x expected ≡ panics = ground (arith, bytes_eq_iff x expected) in
      rw stops (λ p. cc, λ (q, e). let equal : x ≡ expected = cc q in absurd (differ equal))
]

-- The test of the Ethereum-style converter passes exactly if the converter gives its key the
-- account expected, and this has the text expected. Assumes that an H160 has 20 bytes.
pub evm_transparent_converter_works_iff :
    (h : Host)
    → IsH160 h
    → (evm_transparent_converter_works h ≡ returns tt) ↔ (
        (evm_transparent_convert h uncompressed_key ≡ returns (some transparent_account))
        × (h.to_ss58check_with_version transparent_account 42 ≡ transparent_text))
unfolding evm_transparent_converter_works
evm_transparent_converter_works_iff h L =
    let key = drop 1 uncompressed_key in
    let size = L (h.keccak_256 key) in
    rw
      (
        slice_rest 0x04 key,
        copy_address _ size,
        copy_postfix _ size,
        evm_transparent_convert_lem h L 0x04 key,
      )
      (asserted h _ _ _)

-- A step that went on had its value.
>>=-expect :
    {A B : Type 0} (o : Option A) (k : A → Checked B) {b : B}
    → (expect o >>= k) ≡ returns b
    → (a : A) × (o ≡ some a) × (k a ≡ returns b)
>>=-expect none k e = cc
>>=-expect (some a) k e = (a, refl, e)

module _ {RuntimeCall Rest Post Err Imbalance Liquidity : Type 0} (h : Host)
    (f : Frame RuntimeCall Rest Post Err Imbalance Liquidity)
    (lib : MockLibrary Rest Imbalance) where
  -- The message that the test puts together is the pallet's, of an account with the test's text.
  signing_message_lem :
      (account : AccountId) (call : RuntimeCall)
      → h.to_ss58check_with_version account 42 ≡ account_text
      → f.encode call ≡ call_data
      → eip712_message_hash h
          (mock_config {RuntimeCall = RuntimeCall} h lib)
          account
          (f.encode call)
          0
        ≡ signing_message h lib
  unfolding eip712_message_hash
  signing_message_lem account call text encoded = ap₂ (message_of h lib) text encoded

  -- The test `eip712`, which puts the message together on its own, passes exactly if some account
  -- with the test's text has signed the test's call, as the pallet checks it in the test's runtime.
  pub eip712-IsSigned :
      (call : RuntimeCall)
      → f.encode call ≡ call_data
      → (eip712 h lib ≡ returns tt) ↔ (
          (account : AccountId) × (h.to_ss58check_with_version account 42 ≡ account_text)
          × IsSigned h f (mock_config h lib) (test_call account call))
  unfolding eip712
  eip712-IsSigned call encoded = (
    λ p.
        let (key, recovers, p') = >>=-expect _ _ p in
        let (account, decoded, p'') = >>=-expect _ _ p' in
        let text = (assert_eq_iff _ _).0 p'' in
        (
          account,
          text,
          (
            key,
            ap (h.secp256k1_ecdsa_recover_compressed signature)
                  (signing_message_lem account call text encoded)
                ∙ recovers,
            ap returns decoded,
          ),
        ),
    λ (account, text, (key, recovers, converted)).
        let message =
          ap (h.secp256k1_ecdsa_recover_compressed signature)
            (signing_message_lem account call text encoded) in
        let decoded : h.account_id32_decode (h.blake2_256 key) ≡ some account = cc converted in
        rw (sym message ∙ recovers) (rw decoded ((assert_eq_iff _ _).1 text)),
  )
