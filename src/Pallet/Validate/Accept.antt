-- ===== src/Pallet/Validate/Accept.antt =====
-- When `validate_unsigned` accepts, and what it returns then.
use mathlib.Core.Option.{some-injective}
use substrate_evm_account_ma.Prelude.{
  ◌∙◌, ap, inr, bytes_eq_iff, inl, ◌≤◌, Option-cases, arith, refl, u128_max, none, ◌+◌, ◌↔◌, some,
  Bytes, min, ℕ, ◌≡◌, Option,
}
use substrate_evm_account_ma.Prelude.Checked.{panics, returns, Checked}
use substrate_evm_account_ma.Account.{AccountId}
use substrate_evm_account_ma.Host.{Host}
use substrate_evm_account_ma.Pallet.Frame.{Config, Frame}
use substrate_evm_account_ma.Pallet.Frame.Laws.{IsSaturating}
use substrate_evm_account_ma.Pallet.Message.{eip712_message_hash}
use substrate_evm_account_ma.Pallet.Types.{
  polite, preserve, meta_call, ValidTransaction, MetaCall, State,
}
use substrate_evm_account_ma.Pallet.Validate.{
  priority, build, estimated_fee, recover, check_account, check_nonce, check_payment, check_signer,
  validate_unsigned,
}
use substrate_evm_account_ma.Pallet.Validate.Priority.{priority-HasRoom, priority_room, HasRoom}
use substrate_evm_account_ma.Pallet.Verdict.{>>=-accept, accept}

pub check_account-accept :
    (who : AccountId) (r : Checked (Option AccountId))
    → (check_account who r ≡ accept tt) ↔ (r ≡ returns (some who))
check_account-accept who (returns (some a)) = ground (arith, bytes_eq_iff who a)
check_account-accept who (returns none) = ground arith
check_account-accept who panics = ground arith

module _ {RuntimeCall Rest Post Err Imbalance Liquidity : Type 0} (h : Host)
    (f : Frame RuntimeCall Rest Post Err Imbalance Liquidity)
    (c : Config RuntimeCall Rest Imbalance) where
  abbrev pub recovered : MetaCall RuntimeCall → Option Bytes
  recovered m =
      recover h c.address_converter.secp256k1_public_key_form m.signature
        (eip712_message_hash h c m.who (f.encode m.call) m.nonce)

  -- The signature recovers to a key whose account is the caller.
  abbrev pub IsSigned : MetaCall RuntimeCall → Type 0
  IsSigned m =
      (key : Bytes) × (recovered m ≡ some key)
      × (c.address_converter.try_convert key ≡ returns (some m.who))

  -- The caller's usable balance covers the estimated fee and the service fee, as `u128`s add.
  abbrev pub IsFunded : MetaCall RuntimeCall → Rest → Type 0
  IsFunded m rest =
      min (estimated_fee h f c m rest + c.service_fee) u128_max
      ≤ f.reducible_balance m.who preserve polite rest

  pub check_signer-accept :
      (m : MetaCall RuntimeCall) → (check_signer h f c m ≡ accept tt) ↔ IsSigned m
  unfolding check_signer
  check_signer-accept m = elim (Option-cases (recovered m)) [
    | inl unrecovered ↦ rw unrecovered (λ p. cc, λ (key, e, _). cc)
    | inr (key, e) ↦
        let (sound, complete) = check_account-accept m.who (c.address_converter.try_convert key) in
        rw e (
          λ p. (key, refl, sound p),
          λ (key', e', conversion).
              complete
                (ap c.address_converter.try_convert (some-injective key key' e') ∙ conversion),
        )
  ]

  pub check_nonce-accept :
      (m : MetaCall RuntimeCall) (n : ℕ) (r : Bytes × Option Bytes)
      → (check_nonce h f c m n ≡ accept r)
        ↔ ((m.nonce ≡ n) × (r ≡ (h.encode_who_nonce m.who m.nonce, none)))
  unfolding check_nonce
  check_nonce-accept m n r = ground arith

  pub check_payment-accept :
      (m : MetaCall RuntimeCall) (rest : Rest)
      → IsSaturating f
      → (check_payment h f c m rest ≡ accept tt) ↔ IsFunded m rest
  unfolding check_payment
  check_payment-accept m rest S = ground (
    arith,
    S u128_max (estimated_fee h f c m rest),
    S u128_max c.service_fee,
    S u128_max (f.reducible_balance m.who preserve polite rest),
  )

  -- What an accepted call meets.
  pub record IsAcceptable (s : State Rest Post Err) (m : MetaCall RuntimeCall) : Type 0 where
    pub signed : IsSigned m
    pub current : m.nonce ≡ s.account_nonce m.who
    pub funded : IsFunded m s.rest
    pub room : HasRoom h f c m

  -- The transaction that is built, with this priority.
  abbrev pub accepted : MetaCall RuntimeCall → ℕ → ValidTransaction
  accepted m p = build h f c p (h.encode_who_nonce m.who m.nonce) none

  -- An accepted meta call is signed by the caller, has the account's nonce, is covered by the
  -- balance and has room in a block. What is returned provides the tag of the caller and nonce,
  -- requires nothing, and has the computed priority. Assumes that conversions of numbers saturate.
  pub validate_unsigned_sound :
      (s : State Rest Post Err) (m : MetaCall RuntimeCall) (v : ValidTransaction)
      → IsSaturating f
      → validate_unsigned h f c s (meta_call m) ≡ accept v
      → IsAcceptable s m × ((p : ℕ) × (priority h f c m ≡ accept p) × (v ≡ accepted m p))
  unfolding validate_unsigned
  validate_unsigned_sound s m v S e =
      let (u, signed, e1) = >>=-accept (check_signer h f c m) _ e in
      let (tags, current, e2) = >>=-accept (check_nonce h f c m (s.account_nonce m.who)) _ e1 in
      let (w, funded, e3) = >>=-accept (check_payment h f c m s.rest) _ e2 in
      let (p, computed, e4) = >>=-accept (priority h f c m) _ e3 in
      let (same_nonce, same_tags) = (check_nonce-accept m (s.account_nonce m.who) tags).0 current in
      (
        record {
          signed = (check_signer-accept m).0 signed;
          current = same_nonce;
          funded = (check_payment-accept m s.rest S).0 funded;
          room = priority-HasRoom h f c m computed;
        },
        (p, computed, cc),
      )

  -- A meta call that is signed by the caller, has the account's nonce, is covered by the balance
  -- and has room in a block is accepted. Assumes that conversions of numbers saturate.
  pub validate_unsigned_complete :
      (s : State Rest Post Err) (m : MetaCall RuntimeCall)
      → IsSaturating f
      → IsAcceptable s m
      → (p : ℕ) × (validate_unsigned h f c s (meta_call m) ≡ accept (accepted m p))
  unfolding validate_unsigned
  validate_unsigned_complete s m S a =
      let (p, computed) = priority_room h f c m a.room in
      (
        p,
        rw (
          (check_signer-accept m).1 a.signed,
          (check_nonce-accept m (s.account_nonce m.who) (h.encode_who_nonce m.who m.nonce, none)).1
              (a.current, refl),
          (check_payment-accept m s.rest S).1 a.funded,
          computed,
        ),
      )
