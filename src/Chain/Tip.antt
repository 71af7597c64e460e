-- ===== src/Chain/Tip.antt =====
-- What another's tip on a signed call does on the chain.
use substrate_evm_account_ma.Prelude.{◌≤◌, ◌+◌, ◌≡◌, ℕ, List, [], ◌∷◌, ◌++◌, unwrap_or}
use substrate_evm_account_ma.Chain.{StorageLayer}
use substrate_evm_account_ma.Host.{Host}
use substrate_evm_account_ma.Pallet.Frame.{Config, Frame}
use substrate_evm_account_ma.Pallet.MetaCall.Charges.{usable, inner_start}
use substrate_evm_account_ma.Pallet.MetaCall.Effects.{after_bump}
use substrate_evm_account_ma.Pallet.MetaCall.Stages.{inner}
use substrate_evm_account_ma.Pallet.Types.{MetaCall, State, Event, transaction_fee_paid}

module _ {RuntimeCall Rest Post Err Imbalance Liquidity : Type 0} (h : Host)
    (f : Frame RuntimeCall Rest Post Err Imbalance Liquidity)
    (c : Config RuntimeCall Rest Imbalance) (layer : StorageLayer (State Rest Post Err)) where
  -- What a call with a tip, executed in a state, left: the event of a fee that contains the tip comes
  -- last, and the caller has paid the service fee and this fee, beyond what the inner call moved.
  pub record TipCharged (m : MetaCall RuntimeCall) (s u : State Rest Post Err) : Type 0 where
    pub charged_fee : ℕ
    pub contains_tip : unwrap_or m.tip 0 ≤ charged_fee
    pub earlier : List (Event Post Err)
    pub reported :
        u.events ≡ earlier ++ (transaction_fee_paid m.who charged_fee (unwrap_or m.tip 0) ∷ [])
    pub paid :
        usable f c m u.rest + c.service_fee + charged_fee + usable f c m (inner_start f c m s)
        ≡ usable f c m s.rest + usable f c m (inner f c m (after_bump f c m s)).1.rest
