-- ===== src/Pallet/Validate/Reject.antt =====
-- Why `validate_unsigned` rejects: each reason, exactly.
use substrate_evm_account_ma.Prelude.{
  lt→ltb, false, bytes_eq, ◌↔◌, dec_le, u128_max, ℕ, refl, bytes_eq_iff, ◌<◌, arith, sym, inr, ◌≢◌,
  some, subst, Bytes, inl, Option-cases, ◌⊎◌, none, ◌≡◌, Option,
}
use substrate_evm_account_ma.Prelude.Checked.{panics, returns, Checked}
use substrate_evm_account_ma.Account.{AccountId}
use substrate_evm_account_ma.Host.{Host}
use substrate_evm_account_ma.Pallet.Frame.{Config, Frame}
use substrate_evm_account_ma.Pallet.Frame.Laws.{IsSaturating}
use substrate_evm_account_ma.Pallet.Types.{
  polite, preserve, meta_call, payment, future, stale, bad_signer, call, InvalidTransaction,
  MetaCall, State,
}
use substrate_evm_account_ma.Pallet.Validate.{
  estimated_fee, check_nonce, check_payment, priority, validate_unsigned, check_account,
  check_signer,
}
use substrate_evm_account_ma.Pallet.Validate.Accept.{
  check_nonce-accept, check_signer-accept, IsFunded, IsSigned, recovered,
}
use substrate_evm_account_ma.Pallet.Validate.Priority.{priority_no_room, priority_room}
use substrate_evm_account_ma.Pallet.Verdict.{>>=-reject, reject}

module _ {RuntimeCall Rest Post Err Imbalance Liquidity : Type 0} (h : Host)
    (f : Frame RuntimeCall Rest Post Err Imbalance Liquidity)
    (c : Config RuntimeCall Rest Imbalance) where
  -- What each reason says of the call.
  abbrev pub Reason : State Rest Post Err → MetaCall RuntimeCall → InvalidTransaction → Type 0
  Reason s m call =
      (recovered h f c m ≡ none)
      ⊎ ((key : Bytes) × (recovered h f c m ≡ some key)
          × (c.address_converter.try_convert key ≡ returns none))
  Reason s m bad_signer =
      (key : Bytes) × (account : AccountId) × (recovered h f c m ≡ some key)
      × (c.address_converter.try_convert key ≡ returns (some account))
      × (m.who ≢ account)
  Reason s m stale = IsSigned h f c m × (m.nonce < s.account_nonce m.who)
  Reason s m future = IsSigned h f c m × (s.account_nonce m.who < m.nonce)
  Reason s m payment =
      IsSigned h f c m × (m.nonce ≡ s.account_nonce m.who) × (¬ (IsFunded h f c m s.rest))

  check_account-reject :
      (who : AccountId) (r : Checked (Option AccountId)) {e : InvalidTransaction}
      → check_account who r ≡ reject e
      → ((e ≡ call) × (r ≡ returns none))
        ⊎ ((account : AccountId) × (e ≡ bad_signer)
            × (r ≡ returns (some account))
            × (who ≢ account))
  check_account-reject who (returns (some a)) p =
      inr (a, ground (arith, bytes_eq_iff who a), refl, ground (arith, bytes_eq_iff who a))
  check_account-reject who (returns none) p = inl (cc, refl)
  check_account-reject who panics p = cc

  check_signer-reject :
      (s : State Rest Post Err) (m : MetaCall RuntimeCall) {e : InvalidTransaction}
      → check_signer h f c m ≡ reject e
      → Reason s m e
  unfolding check_signer
  check_signer-reject s m {e} p = elim (Option-cases (recovered h f c m)) [
    | inl missing ↦ subst (Reason s m) {x = call} (cc (rw missing at p)) (inl missing)
    | inr (key, found) ↦
        elim (check_account-reject m.who (c.address_converter.try_convert key) (rw found at p)) [
          | inl (reason, unconverted) ↦
              subst (Reason s m) (sym reason) (inr (key, found, unconverted))
          | inr (account, reason, converted, differ) ↦
              subst (Reason s m) (sym reason) (key, account, found, converted, differ)
        ]
  ]

  check_nonce-reject :
      (m : MetaCall RuntimeCall) (n : ℕ) {e : InvalidTransaction}
      → check_nonce h f c m n ≡ reject e
      → ((e ≡ stale) × (m.nonce < n)) ⊎ ((e ≡ future) × (n < m.nonce))
  unfolding check_nonce
  check_nonce-reject m n p = ground arith

  check_payment-reject :
      (m : MetaCall RuntimeCall) (rest : Rest) {e : InvalidTransaction}
      → IsSaturating f
      → check_payment h f c m rest ≡ reject e
      → (e ≡ payment) × (¬ (IsFunded h f c m rest))
  unfolding check_payment
  check_payment-reject m rest S p = ground (
    arith,
    S u128_max (estimated_fee h f c m rest),
    S u128_max c.service_fee,
    S u128_max (f.reducible_balance m.who preserve polite rest),
  )

  priority_not_reject :
      (m : MetaCall RuntimeCall) {e : InvalidTransaction} → ¬ (priority h f c m ≡ reject e)
  priority_not_reject m p = elim (dec_le 1 (c.max_length (f.get_dispatch_info m.call).class)) [
    | yes room ↦ cc (priority_room h f c m room).1
    | no full ↦ cc (priority_no_room h f c m full)
  ]

  -- A rejection of a meta call has its reason.
  reject-Reason :
      (s : State Rest Post Err) (m : MetaCall RuntimeCall) (e : InvalidTransaction)
      → IsSaturating f
      → validate_unsigned h f c s (meta_call m) ≡ reject e
      → Reason s m e
  unfolding validate_unsigned
  reject-Reason s m e S p = elim (>>=-reject (check_signer h f c m) _ p) [
    | inl unsigned ↦ check_signer-reject s m unsigned
    | inr (u, signed, p1) ↦
        let is_signed = (check_signer-accept h f c m).0 signed in
        elim (>>=-reject (check_nonce h f c m (s.account_nonce m.who)) _ p1) [
          | inl wrong ↦ elim (check_nonce-reject m (s.account_nonce m.who) wrong) [
            | inl (reason, before) ↦ subst (Reason s m) (sym reason) (is_signed, before)
            | inr (reason, after) ↦ subst (Reason s m) (sym reason) (is_signed, after)
          ]
          | inr (tags, current, p2) ↦ elim (>>=-reject (check_payment h f c m s.rest) _ p2) [
            | inl short ↦
                let (reason, unfunded) = check_payment-reject m s.rest S short in
                subst (Reason s m) (sym reason) (
                  is_signed,
                  ((check_nonce-accept h f c m (s.account_nonce m.who) tags).0 current).0,
                  unfunded,
                )
            | inr (w, funded, p3) ↦ elim (>>=-reject (priority h f c m) _ p3) [
              | inl wrong ↦ absurd (priority_not_reject m wrong)
              | inr (n, computed, p4) ↦ cc
            ]
          ]
        ]
  ]

  check_nonce_future :
      (m : MetaCall RuntimeCall) (n : ℕ) → n < m.nonce → check_nonce h f c m n ≡ reject future
  unfolding check_nonce
  check_nonce_future m n after = ground arith

  check_payment_short :
      (m : MetaCall RuntimeCall) (rest : Rest)
      → IsSaturating f
      → ¬ (IsFunded h f c m rest)
      → check_payment h f c m rest ≡ reject payment
  unfolding check_payment
  check_payment_short m rest S unfunded = ground (
    arith,
    S u128_max (estimated_fee h f c m rest),
    S u128_max c.service_fee,
    S u128_max (f.reducible_balance m.who preserve polite rest),
  )

  -- Each reason leads to its rejection.
  Reason-reject :
      (s : State Rest Post Err) (m : MetaCall RuntimeCall) (e : InvalidTransaction)
      → IsSaturating f
      → Reason s m e
      → validate_unsigned h f c s (meta_call m) ≡ reject e
  unfolding validate_unsigned check_signer check_nonce
  Reason-reject s m call S (inl missing) = rw missing
  Reason-reject s m call S (inr (key, found, unconverted)) = rw (found, unconverted)
  Reason-reject s m bad_signer S (key, account, found, converted, differ) =
      let unequal : bytes_eq m.who account ≡ false = ground (arith, bytes_eq_iff m.who account) in
      rw (found, converted, unequal)
  Reason-reject s m stale S (signed, before) =
      rw ((check_signer-accept h f c m).1 signed, lt→ltb _ _ before)
  Reason-reject s m future S (signed, after) =
      rw
        ((check_signer-accept h f c m).1 signed, check_nonce_future m (s.account_nonce m.who) after)
  Reason-reject s m payment S (signed, current, unfunded) = rw (
    (check_signer-accept h f c m).1 signed,
    (check_nonce-accept h f c m (s.account_nonce m.who) (h.encode_who_nonce m.who m.nonce, none)).1
        (current, refl),
    check_payment_short m s.rest S unfunded,
  )

  -- A meta call is rejected for a reason exactly if the reason holds: no key or account is found
  -- (call), the account found is not the caller (bad signer), or, for a call that is signed by the
  -- caller, the nonce is behind (stale) or ahead (future), or the nonce is the account's and the
  -- balance does not cover the fees (payment). Assumes that conversions of numbers saturate.
  pub validate_unsigned-reject :
      (s : State Rest Post Err) (m : MetaCall RuntimeCall) (e : InvalidTransaction)
      → IsSaturating f
      → (validate_unsigned h f c s (meta_call m) ≡ reject e) ↔ Reason s m e
  validate_unsigned-reject s m e S = (reject-Reason s m e S, Reason-reject s m e S)
