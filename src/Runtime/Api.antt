-- ===== src/Runtime/Api.antt =====
-- runtime/src/lib.rs: the runtime APIs, by which the node asks the runtime. They call FRAME's executive
-- and the pallets, which are outside the repository. A call that may write returns the storage. The
-- API for the benchmarks is in Runtime/Benches.
pub mod Laws
use substrate_evm_account_ma.Prelude.{ℕ, List, Bytes, Option, none, Bool, ◌⊎◌}
use substrate_evm_account_ma.Prelude.Checked.{Checked, expect, returns, ◌>>=◌}
use substrate_evm_account_ma.Account.{AccountId}
use substrate_evm_account_ma.Pallet.Types.{Weight, DispatchError}
use substrate_evm_account_ma.Runtime.{RuntimeVersion, version}

-- The types of FRAME that the APIs pass on.
pub record ApiParts : Type 1 where
  pub Block : Type 0
  pub Header : Type 0
  pub Extrinsic : Type 0
  pub RuntimeCall : Type 0
  pub Hash : Type 0
  pub Metadata : Type 0
  pub InherentData : Type 0
  pub CheckInherents : Type 0
  pub Source : Type 0
  pub Invalid : Type 0
  pub Valid : Type 0
  pub AuraId : Type 0
  pub GrandpaId : Type 0
  pub KeyTypeId : Type 0
  pub EquivocationProof : Type 0
  pub KeyOwnershipProof : Type 0
  pub DispatchInfoRpc : Type 0
  pub FeeDetails : Type 0
  pub UpgradeChecks : Type 0
  pub TryStateSelect : Type 0

-- `ApplyExtrinsicResult`: invalid, or dispatched with its result.
abbrev pub Applied : ApiParts → Type 0
Applied t = t.Invalid ⊎ (DispatchError ⊎ Unit {0})

-- `Executive`, and what the APIs call of the pallets and the libraries.
pub record Executive (t : ApiParts) (S : Type 0) : Type 0 where
  pub execute_block : t.Block → S → Checked S
  pub initialize_block : t.Header → S → S
  pub apply_extrinsic : t.Extrinsic → S → Applied t × S
  pub finalize_block : S → t.Header × S
  pub validate_transaction : t.Source → t.Extrinsic → t.Hash → S → t.Invalid ⊎ t.Valid
  pub offchain_worker : t.Header → S → S
  pub try_runtime_upgrade : t.UpgradeChecks → S → Option Weight
  pub try_execute_block : t.Block → Bool → Bool → t.TryStateSelect → S → Option Weight
  pub metadata : Bytes
  pub opaque_metadata : Bytes → t.Metadata
  pub metadata_at_version : ℕ → Option t.Metadata
  pub metadata_versions : List ℕ
  pub create_extrinsics : t.InherentData → List t.Extrinsic
  pub check_extrinsics : t.InherentData → t.Block → t.CheckInherents
  -- `Aura`, `Grandpa`, `System` and `TransactionPayment`
  pub aura_slot_duration : ℕ
  pub aura_authorities : S → List t.AuraId
  pub generate_keys : Option Bytes → Bytes
  pub decode_keys : Bytes → Option (List (Bytes × t.KeyTypeId))
  pub grandpa_authorities : S → List (t.GrandpaId × ℕ)
  pub current_set_id : S → ℕ
  pub account_nonce : AccountId → S → ℕ
  pub query_info : t.Extrinsic → ℕ → S → t.DispatchInfoRpc
  pub query_fee_details : t.Extrinsic → ℕ → S → t.FeeDetails
  pub query_call_info : t.RuntimeCall → ℕ → S → t.DispatchInfoRpc
  pub query_call_fee_details : t.RuntimeCall → ℕ → S → t.FeeDetails
  pub weight_to_fee : Weight → S → ℕ
  pub length_to_fee : ℕ → S → ℕ
  pub create_default_config : Bytes
  pub build_config : Bytes → S → (Bytes ⊎ Unit {0}) × S

-- The APIs of `impl_runtime_apis!`, without those of the features and the last of the payment's. A slot's duration is its
-- milliseconds.
pub record RuntimeApi (t : ApiParts) (S : Type 0) : Type 0 where
  pub version : RuntimeVersion
  pub execute_block : t.Block → S → Checked S
  pub initialize_block : t.Header → S → S
  pub metadata : t.Metadata
  pub metadata_at_version : ℕ → Option t.Metadata
  pub metadata_versions : List ℕ
  pub apply_extrinsic : t.Extrinsic → S → Applied t × S
  pub finalize_block : S → t.Header × S
  pub inherent_extrinsics : t.InherentData → List t.Extrinsic
  pub check_inherents : t.Block → t.InherentData → t.CheckInherents
  pub validate_transaction : t.Source → t.Extrinsic → t.Hash → S → t.Invalid ⊎ t.Valid
  pub offchain_worker : t.Header → S → S
  pub slot_duration : ℕ
  pub authorities : S → List t.AuraId
  pub generate_session_keys : Option Bytes → Bytes
  pub decode_session_keys : Bytes → Option (List (Bytes × t.KeyTypeId))
  pub grandpa_authorities : S → List (t.GrandpaId × ℕ)
  pub current_set_id : S → ℕ
  pub submit_report_equivocation_unsigned_extrinsic :
      t.EquivocationProof → t.KeyOwnershipProof → Option (Unit {0})
  pub generate_key_ownership_proof : ℕ → t.GrandpaId → Option t.KeyOwnershipProof
  pub account_nonce : AccountId → S → ℕ
  pub query_info : t.Extrinsic → ℕ → S → t.DispatchInfoRpc
  pub query_fee_details : t.Extrinsic → ℕ → S → t.FeeDetails
  pub query_weight_to_fee : Weight → S → ℕ
  pub query_length_to_fee : ℕ → S → ℕ

-- `TransactionPaymentCallApi`
pub record TransactionPaymentCallApi (t : ApiParts) (S : Type 0) : Type 0 where
  pub query_call_info : t.RuntimeCall → ℕ → S → t.DispatchInfoRpc
  pub query_call_fee_details : t.RuntimeCall → ℕ → S → t.FeeDetails
  pub query_weight_to_fee : Weight → S → ℕ
  pub query_length_to_fee : ℕ → S → ℕ

-- `GenesisBuilder`
pub record GenesisBuilder (S : Type 0) : Type 0 where
  pub create_default_config : Bytes
  pub build_config : Bytes → S → (Bytes ⊎ Unit {0}) × S

-- `TryRuntime`, of the feature `try-runtime`
pub record TryRuntime (t : ApiParts) (S : Type 0) : Type 0 where
  pub on_runtime_upgrade : t.UpgradeChecks → S → Checked (Weight × Weight)
  pub try_execute_block : t.Block → Bool → Bool → t.TryStateSelect → S → Checked Weight

module _ {t : ApiParts} {S : Type 0} (x : Executive t S) where
  abbrev pub runtime_api : RuntimeApi t S
  runtime_api = record {
    version = version;
    execute_block = λ block s. x.execute_block block s;
    initialize_block = λ header s. x.initialize_block header s;
    metadata = x.opaque_metadata x.metadata;
    metadata_at_version = λ asked. x.metadata_at_version asked;
    metadata_versions = x.metadata_versions;
    apply_extrinsic = λ extrinsic s. x.apply_extrinsic extrinsic s;
    finalize_block = λ s. x.finalize_block s;
    inherent_extrinsics = λ inherents. x.create_extrinsics inherents;
    check_inherents = λ block inherents. x.check_extrinsics inherents block;
    validate_transaction = λ source tx block_hash s. x.validate_transaction source tx block_hash s;
    offchain_worker = λ header s. x.offchain_worker header s;
    slot_duration = x.aura_slot_duration;
    authorities = λ s. x.aura_authorities s;
    generate_session_keys = λ seed. x.generate_keys seed;
    decode_session_keys = λ encoded. x.decode_keys encoded;
    grandpa_authorities = λ s. x.grandpa_authorities s;
    current_set_id = λ s. x.current_set_id s;
    submit_report_equivocation_unsigned_extrinsic = λ equivocation_proof key_owner_proof. none;
    generate_key_ownership_proof = λ set_id authority_id. none;
    account_nonce = λ account s. x.account_nonce account s;
    query_info = λ uxt len s. x.query_info uxt len s;
    query_fee_details = λ uxt len s. x.query_fee_details uxt len s;
    query_weight_to_fee = λ weight s. x.weight_to_fee weight s;
    query_length_to_fee = λ len s. x.length_to_fee len s;
  }

  abbrev pub transaction_payment_call_api : TransactionPaymentCallApi t S
  transaction_payment_call_api = record {
    query_call_info = λ call len s. x.query_call_info call len s;
    query_call_fee_details = λ call len s. x.query_call_fee_details call len s;
    query_weight_to_fee = λ weight s. x.weight_to_fee weight s;
    query_length_to_fee = λ len s. x.length_to_fee len s;
  }

  abbrev pub genesis_builder : GenesisBuilder S
  genesis_builder = record {
    create_default_config = x.create_default_config;
    build_config = λ config s. x.build_config config s;
  }

  -- With the limits of a block that the runtime configures.
  abbrev pub try_runtime : (max_block : Weight) → TryRuntime t S
  try_runtime max_block = record {
    on_runtime_upgrade = λ checks s. do
      weight ← expect (x.try_runtime_upgrade checks s)
      returns (weight, max_block);
    try_execute_block = λ block state_root_check signature_check select s.
        expect (x.try_execute_block block state_root_check signature_check select s);
  }
