-- ===== src/Tests/ApiExamples.antt =====
-- The theorems on the runtime's APIs and its genesis at concrete inputs.
use substrate_evm_account_ma.Prelude.{
  arith, true, ap, as_bytes, inl, none, refl, [], bytes_eq, inr, some, Bytes, length, ◌∷◌, ◌≡◌, ◌⊎◌,
  ℕ,
}
use substrate_evm_account_ma.Prelude.Checked.{returns}
use substrate_evm_account_ma.Chain.{here}
use substrate_evm_account_ma.Node.ChainSpec.{
  development_accounts, accounts, built, development, authority_keys_from_seed, ok,
  development_config, testnet_genesis, ChainSpec, Genesis, Keys, load_spec,
}
use substrate_evm_account_ma.Node.ChainSpec.Support.{load_spec-IsSupported, IsSupported}
use substrate_evm_account_ma.Pallet.Exec.{Outcome, done, failed}
use substrate_evm_account_ma.Pallet.Frame.{Config}
use substrate_evm_account_ma.Pallet.MetaCall.{
  charge_and_dispatch, bump_nonce, pay_service_fee, meta_call,
}
use substrate_evm_account_ma.Pallet.Types.{Call, RawOrigin, MetaCall, State, ValidTransaction}
use substrate_evm_account_ma.Pallet.Validate.{
  max_tx_per_block, check_payment, check_signer, validate_unsigned, check_nonce, priority,
}
use substrate_evm_account_ma.Pallet.Verdict.{Verdict, accept, reject, panicked}
use substrate_evm_account_ma.Runtime.{runtime_config}
use substrate_evm_account_ma.Runtime.Api.{Applied, runtime_api, ApiParts, Executive}
use substrate_evm_account_ma.Runtime.Api.Laws.{applied_is_rejected, IsExecutive}
use substrate_evm_account_ma.Tests.NodeExamples.{library, rich}
use substrate_evm_account_ma.Tests.ToyFrame.{
  frame-IsSaturating, frame-IsContained, layer, request, frame,
}
use substrate_evm_account_ma.Tests.ToyHost.{host}
use substrate_evm_account_ma.Tests.ToyWords.{bytes_le}

abbrev parts : ApiParts
parts = record {
  Block = ℕ;
  Header = ℕ;
  Extrinsic = MetaCall ℕ;
  RuntimeCall = ℕ;
  Hash = ℕ;
  Metadata = Bytes;
  InherentData = ℕ;
  CheckInherents = ℕ;
  Source = ℕ;
  Invalid = ℕ;
  Valid = ValidTransaction;
  AuraId = ℕ;
  GrandpaId = ℕ;
  KeyTypeId = ℕ;
  EquivocationProof = ℕ;
  KeyOwnershipProof = ℕ;
  DispatchInfoRpc = ℕ;
  FeeDetails = ℕ;
  UpgradeChecks = ℕ;
  TryStateSelect = ℕ;
}

abbrev runtime : Config ℕ ℕ ℕ
runtime = runtime_config host library

abbrev validity : Verdict ValidTransaction → ℕ ⊎ ValidTransaction
validity (accept v) = inr v
validity (reject e) = inl 1
validity panicked = inl 2

abbrev dispatched :
    Verdict ValidTransaction
    → Outcome (Unit {0}) × State ℕ ℕ ℕ
    → State ℕ ℕ ℕ
    → Applied parts × State ℕ ℕ ℕ
dispatched (accept v) (done a, t) s = (inr (inr tt), t)
dispatched (accept v) (failed e, t) s = (inr (inl e), t)
dispatched (reject e) r s = (inl 1, s)
dispatched panicked r s = (inl 2, s)

abbrev validated : MetaCall ℕ → State ℕ ℕ ℕ → Verdict ValidTransaction
validated m s = validate_unsigned host frame runtime s (Call.meta_call m)

abbrev executive : Executive parts (State ℕ ℕ ℕ)
executive = record {
  execute_block = λ block s. returns s;
  initialize_block = λ header s. s;
  apply_extrinsic =
      λ m s. dispatched (validated m s) (layer.run (meta_call frame runtime RawOrigin.none m) s) s;
  finalize_block = λ s. (0, s);
  validate_transaction = λ source m hash s. validity (validated m s);
  offchain_worker = λ header s. s;
  try_runtime_upgrade = λ checks s. none;
  try_execute_block = λ block root signatures select s. none;
  metadata = [];
  opaque_metadata = λ b. b;
  metadata_at_version = λ n. none;
  metadata_versions = [];
  create_extrinsics = λ d. [];
  check_extrinsics = λ d block. 0;
  aura_slot_duration = 6000;
  aura_authorities = λ s. [];
  generate_keys = λ seed. [];
  decode_keys = λ encoded. none;
  grandpa_authorities = λ s. [];
  current_set_id = λ s. 0;
  account_nonce = λ a s. 0;
  query_info = λ m len s. 0;
  query_fee_details = λ m len s. 0;
  query_call_info = λ call len s. 0;
  query_call_fee_details = λ call len s. 0;
  weight_to_fee = λ weight s. 0;
  length_to_fee = λ len s. len;
  create_default_config = [];
  build_config = λ b s. (inr tt, s);
}

dispatched_done :
    (v : Verdict ValidTransaction) (r : Outcome (Unit {0}) × State ℕ ℕ ℕ) (s u : State ℕ ℕ ℕ)
    → dispatched v r s ≡ (inr (inr tt), u)
    → (v' : ValidTransaction) × (v ≡ accept v') × (r ≡ (done tt, u))
dispatched_done (accept v) (done a, t) s u e = (v, refl, cc)
dispatched_done (accept v) (failed e', t) s u e = cc
dispatched_done (reject e') r s u e = cc
dispatched_done panicked r s u e = cc

executive-IsExecutive : IsExecutive host frame library layer executive (λ m. m)
executive-IsExecutive = record {
  rejects = λ source m hash s. (s, refl, λ e rejected. (1, ap validity rejected));
  applies = λ m s u e.
      let (v, valid, success) =
        dispatched_done (validated m s) (layer.run (meta_call frame runtime RawOrigin.none m) s) s u
          e in
      (s, u, v, valid, success, refl);
}

abbrev applied_state : State ℕ ℕ ℕ
applied_state = (meta_call frame runtime RawOrigin.none request rich).1

request_applied :
    (runtime_api executive).apply_extrinsic request rich ≡ (inr (inr tt), applied_state)
unfolding validate_unsigned check_signer check_nonce check_payment priority max_tx_per_block
    bytes_le bytes_eq meta_call pay_service_fee bump_nonce charge_and_dispatch
request_applied = refl

applied_is_rejected_example :
    (reason : ℕ) × ((runtime_api executive).validate_transaction 0 request 0 applied_state
      ≡ inl reason)
applied_is_rejected_example =
    applied_is_rejected host frame library layer executive (λ m. m) request 0 0 frame-IsContained
      frame-IsSaturating executive-IsExecutive request_applied here (omega arith)

abbrev seeded : Keys ℕ ℕ
seeded = record {
  aura_from_seed = λ seed. length seed;
  grandpa_from_seed = λ seed. length seed;
  account_id_from_seed = λ seed. seed;
  wasm_binary = some (0 ∷ []);
}

abbrev dev_genesis : Genesis ℕ ℕ
dev_genesis =
    testnet_genesis (authority_keys_from_seed seeded (as_bytes "Alice") ∷ []) (as_bytes "Alice")
      (accounts seeded (development_accounts seeded)) true

abbrev dev : ChainSpec ℕ ℕ
dev = record {
  code = 0 ∷ [];
  name = as_bytes "Development";
  id = as_bytes "dev";
  chain_type = development;
  genesis = dev_genesis;
}

dev_loaded : load_spec seeded (λ path. ok (length path)) (as_bytes "dev") ≡ ok (built dev)
unfolding load_spec development_config bytes_eq testnet_genesis
dev_loaded = refl

load_spec-IsSupported_example : IsSupported dev_genesis
load_spec-IsSupported_example =
    load_spec-IsSupported seeded (λ a b known known_too e. e) (λ path. ok (length path))
      (as_bytes "dev") dev dev_loaded
