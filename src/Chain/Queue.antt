-- ===== src/Chain/Queue.antt =====
-- An account's calls that wait in a row are all executed, if it can pay for them.
use substrate_evm_account_ma.Prelude.{◌≤◌, ◌+◌, ◌≡◌, ℕ, List, [], ◌∷◌}
use substrate_evm_account_ma.Account.{AccountId}
use substrate_evm_account_ma.Host.{Host}
use substrate_evm_account_ma.Pallet.Frame.{Config, Frame}
use substrate_evm_account_ma.Pallet.Frame.Laws.{IsSaturating, IsContained, IsCovering, IsSettling}
use substrate_evm_account_ma.Pallet.Types.{MetaCall, State, DispatchInfo, signed, polite, preserve}
use substrate_evm_account_ma.Pallet.Validate.{estimated_fee}
use substrate_evm_account_ma.Pallet.Validate.Accept.{IsSigned}
use substrate_evm_account_ma.Pallet.Validate.Priority.{HasRoom}

module _ {RuntimeCall Rest Post Err Imbalance Liquidity : Type 0} (h : Host)
    (f : Frame RuntimeCall Rest Post Err Imbalance Liquidity)
    (c : Config RuntimeCall Rest Imbalance) where
  -- Documented behaviour of the fees where the multiplier is constant, as in the runtime: the fee of a
  -- call is the same in every storage, and what a call actually costs is no more than its fee.
  pub record IsSteady : Type 0 where
    pub fee_constant :
        (len : ℕ) (info : DispatchInfo) (tip : ℕ) (rest rest' : Rest)
        → f.compute_fee len info tip rest ≡ f.compute_fee len info tip rest'
    pub actual_fee_le :
        (len : ℕ) (info : DispatchInfo) (post_info : Post) (tip : ℕ) (rest rest' : Rest)
        → f.compute_actual_fee len info post_info tip rest ≤ f.compute_fee len info tip rest'

  abbrev usable : AccountId → Rest → ℕ
  usable who = f.reducible_balance who preserve polite

  -- The call of an account with a nonce, ready but for its fees, and whose inner call takes nothing
  -- from the account.
  pub record IsReady (who : AccountId) (n : ℕ) (m : MetaCall RuntimeCall) : Type 0 where
    pub caller : m.who ≡ who
    pub next : m.nonce ≡ n
    pub signed_by_caller : IsSigned h f c m
    pub room : HasRoom h f c m
    pub harmless :
        (s : State Rest Post Err)
        → usable m.who s.rest
          ≤ usable m.who (f.dispatch m.call (signed m.who) c.call_filter s).1.rest

  -- Calls of an account with the nonces from one on.
  abbrev pub Queue : AccountId → ℕ → List (MetaCall RuntimeCall) → Type 0
  Queue who n [] = Unit
  Queue who n (m ∷ ms) = IsReady who n m × Queue who (n + 1) ms

  -- The fees of calls, the service fee of each with them.
  abbrev pub total_cost : Rest → List (MetaCall RuntimeCall) → ℕ
  total_cost rest [] = 0
  total_cost rest (m ∷ ms) = estimated_fee h f c m rest + c.service_fee + total_cost rest ms

  -- The calls executed, the newest first, after calls in a row.
  abbrev pub logged : List (AccountId × ℕ) → List (MetaCall RuntimeCall) → List (AccountId × ℕ)
  logged l [] = l
  logged l (m ∷ ms) = logged ((m.who, m.nonce) ∷ l) ms

  -- What is assumed of FRAME for a queue.
  pub record IsServing : Type 0 where
    pub contained : IsContained f
    pub covering : IsCovering f c
    pub settling : IsSettling f c
    pub saturating : IsSaturating f
    pub steady : IsSteady
