-- ===== src/Tests/AuthorityExamples.antt =====
-- The theorems on keys and signatures at concrete inputs.
use substrate_evm_account_ma.Prelude.{
  ◌≡◌, ◌++◌, ◌↔◌, ◌⊎◌, ℕ, append_injective, arith, bytes_eq, none, refl, some, ap, length,
}
use substrate_evm_account_ma.Eip712.Binding.{IsDomain}
use substrate_evm_account_ma.Host.{Host}
use substrate_evm_account_ma.Host.Laws.{IsEthabi, IsSs58, Collision}
use substrate_evm_account_ma.Pallet.Message.{eip712_domain, eip712_message_hash}
use substrate_evm_account_ma.Pallet.Types.{Call, MetaCall, State, ValidTransaction}
use substrate_evm_account_ma.Pallet.Validate.{
  check_nonce, check_payment, check_signer, max_tx_per_block, priority, validate_unsigned,
}
use substrate_evm_account_ma.Pallet.Validate.Accept.{accepted}
use substrate_evm_account_ma.Pallet.Verdict.{accept}
use substrate_evm_account_ma.Runtime.{runtime_config}
use substrate_evm_account_ma.Runtime.Authority.{
  HashesCongruent, IsKeyed, KeysCollide, SameMessage, one_key_one_account,
  one_signature_one_message, signed_inputs, signing_key, scalar,
}
use substrate_evm_account_ma.Runtime.Elsewhere.{accepted_elsewhere, IsCopy}
use substrate_evm_account_ma.Tests.NodeExamples.{library, rich}
use substrate_evm_account_ma.Tests.ToyFrame.{frame, request, frame-IsSaturating}
use substrate_evm_account_ma.Tests.ToyHost.{host, host-IsEthabi, host-IsSs58}
use substrate_evm_account_ma.Tests.ToyWords.{bytes_le, length-bytes_le}

-- A host whose keys are signatures with their messages.
abbrev signer : Host
signer = record host {
  secp256k1_ecdsa_recover_compressed = λ signature message. some (signature ++ message);
}

signer-IsEthabi : IsEthabi signer
signer-IsEthabi = record {
  keccak_256-IsHash = host-IsEthabi.keccak_256-IsHash;
  length-abi_encode = host-IsEthabi.length-abi_encode;
  abi_encode_injective = host-IsEthabi.abi_encode_injective;
  u256_from_bytes-IsU256 = host-IsEthabi.u256_from_bytes-IsU256;
  u256_from_bytes_injective = host-IsEthabi.u256_from_bytes_injective;
  u256_from_u64-IsU256 = host-IsEthabi.u256_from_u64-IsU256;
  u256_from_u64_injective = host-IsEthabi.u256_from_u64_injective;
}

signer-IsSs58 : IsSs58 signer
signer-IsSs58 = host-IsSs58

signer-IsKeyed : IsKeyed signer
signer-IsKeyed = record {
  length-blake2_256 = λ x. length-bytes_le 32 (length x);
  account_id32_decode_lem = λ x e. refl;
  recover_scalar = λ signature hash hash' key e e'.
      let same : signature ++ hash ≡ signature ++ hash' = cc in
      ap scalar (append_injective signature hash signature hash' refl same).1;
}

-- The calls of a key of 97 bytes, with a tip and without.
abbrev tipped : MetaCall ℕ
tipped = record request { who = bytes_le 32 97 }

abbrev plain : MetaCall ℕ
plain = record tipped { tip = none }

abbrev tipped_valid : ValidTransaction
tipped_valid = accepted signer frame (runtime_config signer library) tipped 300

abbrev plain_valid : ValidTransaction
plain_valid = accepted signer frame (runtime_config signer library) plain 100

tipped_accepted :
    validate_unsigned signer frame (runtime_config signer library) rich (Call.meta_call tipped)
    ≡ accept tipped_valid
unfolding validate_unsigned check_signer check_nonce check_payment priority max_tx_per_block
    bytes_le bytes_eq eip712_message_hash
tipped_accepted = refl

plain_accepted :
    validate_unsigned signer frame (runtime_config signer library) rich (Call.meta_call plain)
    ≡ accept plain_valid
unfolding validate_unsigned check_signer check_nonce check_payment priority max_tx_per_block
    bytes_le bytes_eq eip712_message_hash
plain_accepted = refl

one_key_one_account_example :
    ((tipped.who ≡ plain.who)
      ↔ (signing_key signer library frame tipped ≡ signing_key signer library frame plain))
    ⊎ KeysCollide signer library frame tipped plain
one_key_one_account_example =
    one_key_one_account signer library frame signer-IsKeyed frame-IsSaturating rich rich tipped
      plain tipped_valid plain_valid tipped_accepted plain_accepted

runtime-IsDomain : IsDomain (eip712_domain signer (runtime_config {RuntimeCall = ℕ} signer library))
runtime-IsDomain = record { chain_id_fits = omega arith; contract_fits = refl; salt_fits = tt }

one_signature_one_message_example :
    SameMessage signer library frame tipped plain
    ⊎ (KeysCollide signer library frame tipped plain
        ⊎ (HashesCongruent signer library frame tipped plain
            ⊎ Collision signer (signed_inputs signer library frame tipped plain)))
one_signature_one_message_example =
    one_signature_one_message signer library frame signer-IsKeyed frame-IsSaturating rich rich
      tipped plain tipped_valid plain_valid signer-IsEthabi signer-IsSs58 runtime-IsDomain
      (omega arith) (omega arith) tipped_accepted plain_accepted refl refl

-- Another chain, where the account has half as much again.
abbrev other_chain : State ℕ ℕ ℕ
other_chain = record rich { rest = 30000000000 }

copied : IsCopy signer library library frame frame tipped tipped
copied = record { who = refl; nonce = refl; signature = refl; bytes = refl }

accepted_elsewhere_example :
    (p : ℕ) × (validate_unsigned signer frame
        (runtime_config signer library)
        other_chain
        (Call.meta_call tipped)
      ≡ accept (accepted signer frame (runtime_config signer library) tipped p))
accepted_elsewhere_example =
    accepted_elsewhere signer library library frame frame rich other_chain tipped tipped
      tipped_valid frame-IsSaturating frame-IsSaturating refl copied tipped_accepted refl
      (omega arith) (omega arith)
