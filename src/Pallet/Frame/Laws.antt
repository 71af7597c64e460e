-- ===== src/Pallet/Frame/Laws.antt =====
-- Documented behaviour of FRAME, as hypotheses of the theorems.
-- The conversion keeps what fits and is the target's maximum otherwise.
use substrate_evm_account_ma.Prelude.{
  u128_max, ◌<◌, true, ◌+◌, some, ◌≤◌, ◌++◌, List, Bool, min, ◌≡◌, ℕ,
}
use substrate_evm_account_ma.Account.{AccountId}
use substrate_evm_account_ma.Pallet.Frame.{Config, Frame}
use substrate_evm_account_ma.Pallet.Types.{
  DispatchInfo, keep_alive, fee, polite, preserve, Event, signed, State,
}

abbrev pub IsSaturating :
    {RuntimeCall Rest Post Err Imbalance Liquidity : Type 0}
    → Frame RuntimeCall Rest Post Err Imbalance Liquidity
    → Type 0
IsSaturating f = (maximum x : ℕ) → f.saturated_into maximum x ≡ min x maximum

-- The dispatch of a call writes nothing to this pallet's map, and only adds events. A call
-- that gains root rights, as one of the sudo account can, may write any storage: the assumption is
-- about chains and calls without that.
pub record IsContained {RuntimeCall Rest Post Err Imbalance Liquidity : Type 0}
    (f : Frame RuntimeCall Rest Post Err Imbalance Liquidity) : Type 0 where
  pub keeps_nonces :
      (call : RuntimeCall) (who : AccountId) (filter : RuntimeCall → Bool) (s : State Rest Post Err)
      → (f.dispatch call (signed who) filter s).1.account_nonce ≡ s.account_nonce
  pub appends_events :
      (call : RuntimeCall) (who : AccountId) (filter : RuntimeCall → Bool) (s : State Rest Post Err)
      → (inner : List (Event Post Err)) × ((f.dispatch call (signed who) filter s).1.events
          ≡ s.events ++ inner)

-- Documented behaviour of the balances and of the fee payment: what is usable, the account kept
-- alive, can be withdrawn and is then gone; the service fee's handler takes nothing from anybody;
-- the fee of a call depends on the fee multiplier alone, which these do not move; a fee that is
-- usable can be withdrawn; a withdrawn fee can be settled.
pub record IsCovering {RuntimeCall Rest Post Err Imbalance Liquidity : Type 0}
    (f : Frame RuntimeCall Rest Post Err Imbalance Liquidity)
    (c : Config RuntimeCall Rest Imbalance) : Type 0 where
  pub withdraw_covered :
      (who : AccountId) (amount : ℕ) (rest : Rest)
      → amount ≤ f.reducible_balance who preserve polite rest
      → (withdrawn : Imbalance) × ((f.withdraw who amount fee keep_alive rest).0 ≡ some withdrawn)
  pub reducible_balance-withdraw :
      (who : AccountId) (amount : ℕ) (rest : Rest)
      → amount ≤ f.reducible_balance who preserve polite rest
      → f.reducible_balance who preserve polite (f.withdraw who amount fee keep_alive rest).1
          + amount
        ≡ f.reducible_balance who preserve polite rest
  pub reducible_balance-on_unbalanced :
      (who : AccountId) (withdrawn : Imbalance) (rest : Rest)
      → f.reducible_balance who preserve polite rest
        ≤ f.reducible_balance who preserve polite (c.on_unbalanced_for_service_fee withdrawn rest)
  pub compute_fee-withdraw :
      (len : ℕ) (info : DispatchInfo) (tip : ℕ) (who : AccountId) (amount : ℕ) (rest : Rest)
      → f.compute_fee len info tip (f.withdraw who amount fee keep_alive rest).1
        ≡ f.compute_fee len info tip rest
  pub compute_fee-on_unbalanced :
      (len : ℕ) (info : DispatchInfo) (tip : ℕ) (withdrawn : Imbalance) (rest : Rest)
      → f.compute_fee len info tip (c.on_unbalanced_for_service_fee withdrawn rest)
        ≡ f.compute_fee len info tip rest
  pub withdraw_fee_covered :
      (who : AccountId) (call : RuntimeCall) (info : DispatchInfo) (fee tip : ℕ) (rest : Rest)
      → fee ≤ f.reducible_balance who preserve polite rest
      → (liquidity : Liquidity) × ((f.withdraw_fee who call info fee tip rest).0 ≡ some liquidity)
  pub correct_and_deposit_fee_settles :
      (who : AccountId) (info : DispatchInfo) (post_info : Post) (actual_fee tip : ℕ)
      (liquidity : Liquidity) (rest : Rest)
      → (f.correct_and_deposit_fee who info post_info actual_fee tip liquidity rest).0 ≡ true

-- Documented behaviour of the balances and of `CurrencyAdapter`, of what is usable: a withdrawal takes
-- the amount, the service fee's handler takes and gives nothing, and the settlement refunds what
-- was withdrawn beyond the actual fee to an account that has something usable.
pub record IsSettling {RuntimeCall Rest Post Err Imbalance Liquidity : Type 0}
    (f : Frame RuntimeCall Rest Post Err Imbalance Liquidity)
    (c : Config RuntimeCall Rest Imbalance) : Type 0 where
  pub withdraw_exact :
      (who : AccountId) (amount : ℕ) (rest : Rest) (withdrawn : Imbalance)
      → (f.withdraw who amount fee keep_alive rest).0 ≡ some withdrawn
      → (f.peek withdrawn ≡ amount)
        × (f.reducible_balance who preserve polite (f.withdraw who amount fee keep_alive rest).1
              + amount
            ≡ f.reducible_balance who preserve polite rest)
  pub on_unbalanced_neutral :
      (who : AccountId) (withdrawn : Imbalance) (rest : Rest)
      → f.reducible_balance who preserve polite (c.on_unbalanced_for_service_fee withdrawn rest)
        ≡ f.reducible_balance who preserve polite rest
  pub withdraw_fee_exact :
      (who : AccountId) (call : RuntimeCall) (info : DispatchInfo) (fee tip : ℕ) (rest : Rest)
      (liquidity : Liquidity)
      → (f.withdraw_fee who call info fee tip rest).0 ≡ some liquidity
      → f.reducible_balance who preserve polite (f.withdraw_fee who call info fee tip rest).1 + fee
        ≡ f.reducible_balance who preserve polite rest
  pub correct_and_deposit_fee_refunds :
      (who : AccountId) (call : RuntimeCall) (info : DispatchInfo) (fee tip : ℕ) (rest : Rest)
      (liquidity : Liquidity) (post_info : Post) (actual_fee : ℕ) (rest' : Rest)
      → (f.withdraw_fee who call info fee tip rest).0 ≡ some liquidity
      → actual_fee ≤ fee
      → 0 < f.reducible_balance who preserve polite rest'
      → f.reducible_balance who preserve polite
            (f.correct_and_deposit_fee who info post_info actual_fee tip liquidity rest').1
          + actual_fee
        ≡ f.reducible_balance who preserve polite rest' + fee

-- Documented behaviour of the fee payment: the fee computed after a call contains its tip, a `u128`.
abbrev pub IsTipping :
    {RuntimeCall Rest Post Err Imbalance Liquidity : Type 0}
    → Frame RuntimeCall Rest Post Err Imbalance Liquidity
    → Type 0
IsTipping {Rest = Rest} {Post = Post} f =
    (len : ℕ) (info : DispatchInfo) (post_info : Post) (tip : ℕ) (rest : Rest)
    → tip ≤ u128_max
    → tip ≤ f.compute_actual_fee len info post_info tip rest
