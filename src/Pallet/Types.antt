-- ===== src/Pallet/Types.antt =====
-- The data of the pallet: its call, events, errors and storage, and the types of FRAME that it
-- handles. Accounts and signatures are their bytes; a balance is a `u128`, as in
-- runtime/src/lib.rs and pallets/evm_account_mapping/src/mock.rs.
use substrate_evm_account_ma.Prelude.{ℕ, Bool, Option, List, Bytes}
use substrate_evm_account_ma.Account.{AccountId}

-- `sp_weights::Weight`
pub record Weight : Type 0 where
  pub ref_time : ℕ
  pub proof_size : ℕ

pub data DispatchClass : Type 0 where
  normal operational mandatory : DispatchClass

-- `frame_support::dispatch::DispatchInfo`
pub record DispatchInfo : Type 0 where
  pub weight : Weight
  pub class : DispatchClass
  pub pays_fee : Bool

-- `frame_support::dispatch::RawOrigin`
pub data RawOrigin : Type 0 where
  root : RawOrigin
  signed : AccountId → RawOrigin
  none : RawOrigin

pub data WithdrawReasons : Type 0 where
  fee tip transfer : WithdrawReasons

pub data ExistenceRequirement : Type 0 where
  keep_alive allow_death : ExistenceRequirement

pub data Preservation : Type 0 where
  expendable protect preserve : Preservation

pub data Fortitude : Type 0 where
  polite force : Fortitude

-- The reasons of `InvalidTransaction` that the pallet gives.
pub data InvalidTransaction : Type 0 where
  call bad_signer stale future payment : InvalidTransaction

-- What is handed to the builder of a `ValidTransaction`.
pub record ValidTransaction : Type 0 where
  pub tag_prefix : Bytes
  pub priority : ℕ
  pub provides : List Bytes
  pub requires : List Bytes
  pub longevity : ℕ
  pub propagate : Bool

-- `DispatchResultWithPostInfo`: an error carries its post-dispatch information too.
pub data DispatchResult (Post Err : Type 0) : Type 0 where
  ok : Post → DispatchResult Post Err
  err : Err → Post → DispatchResult Post Err

-- `Event<T>`
pub data Event (Post Err : Type 0) : Type 0 where
  service_fee_paid : (who : AccountId) (actual_fee expected_fee : ℕ) → Event Post Err
  transaction_fee_paid : (who : AccountId) (actual_fee tip : ℕ) → Event Post Err
  call_done : (who : AccountId) (call_result : DispatchResult Post Err) → Event Post Err

-- `Error<T>`
pub data Error : Type 0 where
  unexpected nonce_error payment_error : Error

-- The errors of `meta_call`: that of `ensure_none`, or one of the pallet.
pub data DispatchError : Type 0 where
  bad_origin : DispatchError
  module_error : Error → DispatchError

-- The storage that the pallet sees: its own map, whose default is 0, the events deposited, and the
-- storage of the other pallets, which only their operations read and write.
pub record State (Rest Post Err : Type 0) : Type 0 where
  pub account_nonce : AccountId → ℕ
  pub events : List (Event Post Err)
  pub rest : Rest

-- The arguments of `Call::meta_call`.
pub record MetaCall (RuntimeCall : Type 0) : Type 0 where
  pub who : AccountId
  pub call : RuntimeCall
  pub nonce : ℕ
  pub signature : Bytes
  pub tip : Option ℕ

-- `Call<T>`: `meta_call` is the pallet's one call; the other variant is the one that FRAME adds.
pub data Call (RuntimeCall : Type 0) : Type 0 where
  meta_call : MetaCall RuntimeCall → Call RuntimeCall
  ignore : Call RuntimeCall
