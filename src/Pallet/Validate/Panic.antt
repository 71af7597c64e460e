-- ===== src/Pallet/Validate/Panic.antt =====
-- When `validate_unsigned` panics: each cause, exactly.
use substrate_evm_account_ma.Prelude.{
  refl, none, ◌⊎◌, Option, inr, some, Option-cases, arith, inl, ◌↔◌, Bytes, ℕ, ◌≡◌,
}
use substrate_evm_account_ma.Prelude.Checked.{returns, panics, Checked}
use substrate_evm_account_ma.Account.{AccountId}
use substrate_evm_account_ma.Host.{Host}
use substrate_evm_account_ma.Pallet.Frame.{Frame, Config}
use substrate_evm_account_ma.Pallet.Frame.Laws.{IsSaturating}
use substrate_evm_account_ma.Pallet.Types.{meta_call, MetaCall, State}
use substrate_evm_account_ma.Pallet.Validate.{
  check_account, check_payment, check_signer, validate_unsigned, check_nonce, priority,
}
use substrate_evm_account_ma.Pallet.Validate.Accept.{
  IsFunded, IsSigned, check_payment-accept, check_nonce-accept, check_signer-accept, recovered,
}
use substrate_evm_account_ma.Pallet.Validate.Priority.{priority_no_room, priority_room, HasRoom}
use substrate_evm_account_ma.Pallet.Verdict.{>>=-panicked, panicked}

module _ {RuntimeCall Rest Post Err Imbalance Liquidity : Type 0} (h : Host)
    (f : Frame RuntimeCall Rest Post Err Imbalance Liquidity)
    (c : Config RuntimeCall Rest Imbalance) where
  -- The converter panics on the key, or a call that is otherwise acceptable has no room in a block.
  abbrev pub Cause : State Rest Post Err → MetaCall RuntimeCall → Type 0
  Cause s m =
      ((key : Bytes) × (recovered h f c m ≡ some key)
        × (c.address_converter.try_convert key ≡ panics))
      ⊎ (IsSigned h f c m
          × (m.nonce ≡ s.account_nonce m.who)
          × IsFunded h f c m s.rest
          × (¬ (HasRoom h f c m)))

  check_account-panicked :
      (who : AccountId) (r : Checked (Option AccountId))
      → check_account who r ≡ panicked
      → r ≡ panics
  check_account-panicked who (returns (some a)) p = ground arith
  check_account-panicked who (returns none) p = cc
  check_account-panicked who panics p = refl

  check_signer-panicked :
      (s : State Rest Post Err) (m : MetaCall RuntimeCall)
      → check_signer h f c m ≡ panicked
      → Cause s m
  unfolding check_signer
  check_signer-panicked s m p = elim (Option-cases (recovered h f c m)) [
    | inl missing ↦ cc (rw missing at p)
    | inr (key, found) ↦ inl (
      key,
      found,
      check_account-panicked m.who (c.address_converter.try_convert key) (rw found at p),
    )
  ]

  check_nonce_returns : (m : MetaCall RuntimeCall) (n : ℕ) → ¬ (check_nonce h f c m n ≡ panicked)
  unfolding check_nonce
  check_nonce_returns m n p = ground arith

  check_payment_returns :
      (m : MetaCall RuntimeCall) (rest : Rest) → ¬ (check_payment h f c m rest ≡ panicked)
  unfolding check_payment
  check_payment_returns m rest p = ground arith

  priority-panicked : (m : MetaCall RuntimeCall) → priority h f c m ≡ panicked → ¬ (HasRoom h f c m)
  priority-panicked m p room = cc (priority_room h f c m room).1

  panicked-Cause :
      (s : State Rest Post Err) (m : MetaCall RuntimeCall)
      → IsSaturating f
      → validate_unsigned h f c s (meta_call m) ≡ panicked
      → Cause s m
  unfolding validate_unsigned
  panicked-Cause s m S p = elim (>>=-panicked (check_signer h f c m) _ p) [
    | inl unsigned ↦ check_signer-panicked s m unsigned
    | inr (u, signed, p1) ↦ elim (>>=-panicked (check_nonce h f c m (s.account_nonce m.who)) _ p1) [
      | inl wrong ↦ absurd (check_nonce_returns m (s.account_nonce m.who) wrong)
      | inr (tags, current, p2) ↦ elim (>>=-panicked (check_payment h f c m s.rest) _ p2) [
        | inl short ↦ absurd (check_payment_returns m s.rest short)
        | inr (w, funded, p3) ↦ elim (>>=-panicked (priority h f c m) _ p3) [
          | inl full ↦ inr (
            (check_signer-accept h f c m).0 signed,
            ((check_nonce-accept h f c m (s.account_nonce m.who) tags).0 current).0,
            (check_payment-accept h f c m s.rest S).0 funded,
            priority-panicked m full,
          )
          | inr (n, computed, p4) ↦ cc
        ]
      ]
    ]
  ]

  Cause-panicked :
      (s : State Rest Post Err) (m : MetaCall RuntimeCall)
      → IsSaturating f
      → Cause s m
      → validate_unsigned h f c s (meta_call m) ≡ panicked
  unfolding validate_unsigned check_signer
  Cause-panicked s m S (inl (key, found, panic)) = rw (found, panic)
  Cause-panicked s m S (inr (signed, current, funded, full)) = rw (
    (check_signer-accept h f c m).1 signed,
    (check_nonce-accept h f c m (s.account_nonce m.who) (h.encode_who_nonce m.who m.nonce, none)).1
        (current, refl),
    (check_payment-accept h f c m s.rest S).1 funded,
    priority_no_room h f c m full,
  )

  -- The validation of a meta call panics exactly if the converter panics on the key recovered, or
  -- if the call is signed by the caller, has the account's nonce and is covered by the balance, but
  -- no byte of its class fits into a block. Assumes that conversions of numbers saturate.
  pub validate_unsigned-panicked :
      (s : State Rest Post Err) (m : MetaCall RuntimeCall)
      → IsSaturating f
      → (validate_unsigned h f c s (meta_call m) ≡ panicked) ↔ Cause s m
  validate_unsigned-panicked s m S = (panicked-Cause s m S, Cause-panicked s m S)
