-- ===== src/Pallet/MetaCall/Stages.antt =====
-- What each stage of `meta_call` does to the nonces and the events.
use substrate_evm_account_ma.Prelude.{
  bytes_eq_refl, ◌<◌, u32_mod, unwrap_or, Option, ℕ, [], ◌∷◌, u64_mod, ◌++◌, some, ◌%◌, ◌+◌, arith,
  ◌≡◌,
}
use substrate_evm_account_ma.Account.{AccountId}
use substrate_evm_account_ma.Pallet.Exec.{done}
use substrate_evm_account_ma.Pallet.Frame.{Config, Frame}
use substrate_evm_account_ma.Pallet.Frame.Laws.{IsContained}
use substrate_evm_account_ma.Pallet.MetaCall.{
  post_info_of, insert, bump_nonce, charge_and_dispatch, pay_service_fee,
}
use substrate_evm_account_ma.Pallet.Types.{
  signed, transaction_fee_paid, DispatchResult, call_done, keep_alive, fee, service_fee_paid, Event,
  State, MetaCall,
}

module _ {RuntimeCall Rest Post Err Imbalance Liquidity : Type 0}
    (f : Frame RuntimeCall Rest Post Err Imbalance Liquidity)
    (c : Config RuntimeCall Rest Imbalance) where
  pub pay_service_fee_nonces :
      (m : MetaCall RuntimeCall) (s : State Rest Post Err)
      → (pay_service_fee f c m s).1.account_nonce ≡ s.account_nonce
  unfolding pay_service_fee
  pay_service_fee_nonces m s = ground arith

  -- The event of the service fee.
  abbrev pub service_event : MetaCall RuntimeCall → Imbalance → Event Post Err
  service_event m withdrawn = service_fee_paid m.who (f.peek withdrawn) c.service_fee

  pub pay_service_fee_events :
      (m : MetaCall RuntimeCall) (s : State Rest Post Err)
      → (pay_service_fee f c m s).0 ≡ done tt
      → (withdrawn : Imbalance) × ((f.withdraw m.who c.service_fee fee keep_alive s.rest).0
          ≡ some withdrawn)
        × ((pay_service_fee f c m s).1.events ≡ s.events ++ (service_event m withdrawn ∷ []))
  unfolding pay_service_fee
  pay_service_fee_events m s e = ground arith

  pub bump_nonce_done :
      (m : MetaCall RuntimeCall) (s : State Rest Post Err)
      → (bump_nonce f c m s).0 ≡ done tt
      → (s.account_nonce m.who ≡ m.nonce)
        × ((bump_nonce f c m s).1
            ≡ record s { account_nonce = insert m.who ((m.nonce + 1) % u64_mod) s.account_nonce })
  unfolding bump_nonce
  bump_nonce_done m s e = ground arith

  -- The withdrawal of the inner call's fee.
  abbrev pub fee_withdrawal : MetaCall RuntimeCall → Rest → Option Liquidity × Rest
  fee_withdrawal m rest =
      let info = f.get_dispatch_info m.call in
      let tip = unwrap_or m.tip 0 in
      f.withdraw_fee m.who m.call info
        (f.compute_fee (f.encoded_size m.call % u32_mod) info tip rest) tip rest

  -- The inner call, from the state that the withdrawal leaves.
  abbrev pub inner :
      MetaCall RuntimeCall → State Rest Post Err → DispatchResult Post Err × State Rest Post Err
  inner m s =
      f.dispatch m.call (signed m.who) c.call_filter
        (record s { rest = (fee_withdrawal m s.rest).1 })

  pub charge_and_dispatch_nonces :
      (m : MetaCall RuntimeCall) (s : State Rest Post Err)
      → IsContained f
      → (charge_and_dispatch f c m s).1.account_nonce ≡ s.account_nonce
  unfolding charge_and_dispatch
  charge_and_dispatch_nonces m s L = ground (
    arith,
    L.keeps_nonces m.call m.who c.call_filter (record s { rest = (fee_withdrawal m s.rest).1 }),
  )

  -- The inner call's fee, as computed after it ran.
  abbrev pub final_fee : MetaCall RuntimeCall → State Rest Post Err → ℕ
  final_fee m s =
      f.compute_actual_fee (f.encoded_size m.call % u32_mod) (f.get_dispatch_info m.call)
        (post_info_of (inner m s).0) (unwrap_or m.tip 0) (inner m s).1.rest

  pub charge_and_dispatch_events :
      (m : MetaCall RuntimeCall) (s : State Rest Post Err)
      → (charge_and_dispatch f c m s).0 ≡ done tt
      → (charge_and_dispatch f c m s).1.events
        ≡ ((inner m s).1.events ++ (call_done m.who (inner m s).0 ∷ []))
          ++ (transaction_fee_paid m.who (final_fee m s) (unwrap_or m.tip 0) ∷ [])
  unfolding charge_and_dispatch
  charge_and_dispatch_events m s e = ground arith

  -- What a success leaves of the other pallets' storage: the settlement of the fee withdrawn.
  pub charge_and_dispatch_rest :
      (m : MetaCall RuntimeCall) (s : State Rest Post Err)
      → (charge_and_dispatch f c m s).0 ≡ done tt
      → (liquidity : Liquidity) × ((fee_withdrawal m s.rest).0 ≡ some liquidity)
        × ((charge_and_dispatch f c m s).1.rest
            ≡ (f.correct_and_deposit_fee m.who
                (f.get_dispatch_info m.call)
                (post_info_of (inner m s).0)
                (final_fee m s)
                (unwrap_or m.tip 0)
                liquidity
                (inner m s).1.rest).1)
  unfolding charge_and_dispatch
  charge_and_dispatch_rest m s e = ground arith

  -- The service fee paid, and nothing else done.
  pub pay_service_fee_done :
      (m : MetaCall RuntimeCall) (s : State Rest Post Err)
      → (pay_service_fee f c m s).0 ≡ done tt
      → (withdrawn : Imbalance) × ((f.withdraw m.who c.service_fee fee keep_alive s.rest).0
          ≡ some withdrawn)
        × ((pay_service_fee f c m s).1 ≡ record {
          account_nonce = s.account_nonce;
          events = s.events ++ (service_event m withdrawn ∷ []);
          rest =
              c.on_unbalanced_for_service_fee withdrawn
                (f.withdraw m.who c.service_fee fee keep_alive s.rest).1;
        })
  unfolding pay_service_fee
  pay_service_fee_done m s e = ground arith

  -- What a success leaves after the service fee.
  pub pay_service_fee_rest :
      (m : MetaCall RuntimeCall) (s : State Rest Post Err)
      → (pay_service_fee f c m s).0 ≡ done tt
      → (withdrawn : Imbalance) × ((f.withdraw m.who c.service_fee fee keep_alive s.rest).0
          ≡ some withdrawn)
        × ((pay_service_fee f c m s).1.rest
            ≡ c.on_unbalanced_for_service_fee withdrawn
                (f.withdraw m.who c.service_fee fee keep_alive s.rest).1)
  unfolding pay_service_fee
  pay_service_fee_rest m s e = ground arith

-- The account itself has the value inserted, which does not wrap.
pub insert_self :
    (who : AccountId) (n : ℕ) (nonces : AccountId → ℕ)
    → n + 1 < u64_mod
    → insert who ((n + 1) % u64_mod) nonces who ≡ n + 1
unfolding insert
insert_self who n nonces h = rw (bytes_eq_refl who) (omega arith)
