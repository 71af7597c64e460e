-- ===== src/Pallet/MetaCall/Effects.antt =====
-- What a whole `meta_call` does to the nonces and the events, when it succeeds and when it fails.
use substrate_evm_account_ma.Prelude.{
  append_assoc, ap, sym, ◌∙◌, [], unwrap_or, ◌∷◌, ◌++◌, arith, none, some, u64_mod, refl, ◌%◌, ◌+◌,
  List, true, ◌≢◌, ◌≡◌,
}
use substrate_evm_account_ma.Pallet.Exec.{Outcome, ◌>>◌, >>-done, ensure, failed, done}
use substrate_evm_account_ma.Pallet.Frame.{Config, Frame}
use substrate_evm_account_ma.Pallet.Frame.Laws.{IsContained}
use substrate_evm_account_ma.Pallet.MetaCall.{
  charge_and_dispatch, insert, bump_nonce, is_none, pay_service_fee, meta_call,
}
use substrate_evm_account_ma.Pallet.MetaCall.Stages.{
  charge_and_dispatch_events, fee_withdrawal, pay_service_fee_done, final_fee, inner,
  charge_and_dispatch_nonces, service_event, bump_nonce_done, pay_service_fee_nonces,
}
use substrate_evm_account_ma.Pallet.Types.{
  transaction_fee_paid, call_done, nonce_error, payment_error, bad_origin, keep_alive, fee, Event,
  module_error, root, signed, State, MetaCall, RawOrigin,
}

regroup :
    {A : Type 0} (s d : List A) (x y z : A)
    → (((s ++ (x ∷ [])) ++ d) ++ (y ∷ [])) ++ (z ∷ []) ≡ s ++ (x ∷ (d ++ (y ∷ z ∷ [])))
regroup s d x y z = simp append_assoc

module _ {RuntimeCall Rest Post Err Imbalance Liquidity : Type 0}
    (f : Frame RuntimeCall Rest Post Err Imbalance Liquidity)
    (c : Config RuntimeCall Rest Imbalance) where
  is_none_lem : (origin : RawOrigin) → is_none origin ≡ true → origin ≡ RawOrigin.none
  is_none_lem RawOrigin.none e = refl
  is_none_lem root e = cc
  is_none_lem (signed who) e = cc

  -- The states between the stages.
  abbrev pub after_fee : MetaCall RuntimeCall → State Rest Post Err → State Rest Post Err
  after_fee m s = (pay_service_fee f c m s).1

  abbrev pub after_bump : MetaCall RuntimeCall → State Rest Post Err → State Rest Post Err
  after_bump m s = (bump_nonce f c m (after_fee m s)).1

  -- A success went through every stage.
  pub meta_call_stages :
      (origin : RawOrigin) (m : MetaCall RuntimeCall) (s t : State Rest Post Err)
      → meta_call f c origin m s ≡ (done tt, t)
      → (is_none origin ≡ true)
        × ((pay_service_fee f c m s).0 ≡ done tt)
        × ((bump_nonce f c m (after_fee m s)).0 ≡ done tt)
        × (charge_and_dispatch f c m (after_bump m s) ≡ (done tt, t))
  unfolding meta_call
  meta_call_stages origin m s t e =
      let (a, unsigned, e1) =
        >>-done (ensure (is_none origin) bad_origin)
          (pay_service_fee f c m >> (bump_nonce f c m >> charge_and_dispatch f c m)) s e in
      let (b, paid, e2) =
        >>-done (pay_service_fee f c m) (bump_nonce f c m >> charge_and_dispatch f c m) s e1 in
      let (d, bumped, e3) =
        >>-done (bump_nonce f c m) (charge_and_dispatch f c m) (after_fee m s) e2 in
      (ground arith, paid, bumped, e3)

  -- A successful meta call came with no origin and with the nonce of its account. The account's
  -- nonce is one higher afterwards, modulo 2 ^ 64, and no other nonce changes. Assumes that inner
  -- calls leave the pallet's map alone.
  pub meta_call_nonces :
      (origin : RawOrigin) (m : MetaCall RuntimeCall) (s t : State Rest Post Err)
      → IsContained f
      → meta_call f c origin m s ≡ (done tt, t)
      → (origin ≡ RawOrigin.none)
        × (s.account_nonce m.who ≡ m.nonce)
        × (t.account_nonce ≡ insert m.who ((m.nonce + 1) % u64_mod) s.account_nonce)
  meta_call_nonces origin m s t L e =
      let (unsigned, paid, bumped, charged) = meta_call_stages origin m s t e in
      let kept = pay_service_fee_nonces f c m s in
      let (matched, moved) = bump_nonce_done f c m (after_fee m s) bumped in
      let stays = charge_and_dispatch_nonces f c m (after_bump m s) L in
      (is_none_lem origin unsigned, cc, cc)

  -- The state that the inner call's fee is taken from: the service fee is withdrawn and handed over,
  -- its event deposited, and the caller's nonce raised.
  abbrev pub paid_state :
      MetaCall RuntimeCall → State Rest Post Err → Imbalance → State Rest Post Err
  paid_state m s withdrawn = record {
    account_nonce = insert m.who ((m.nonce + 1) % u64_mod) s.account_nonce;
    events = s.events ++ (service_event f c m withdrawn ∷ []);
    rest =
        c.on_unbalanced_for_service_fee withdrawn
          (f.withdraw m.who c.service_fee fee keep_alive s.rest).1;
  }

  -- A success has come through that state.
  pub after_bump-paid_state :
      (m : MetaCall RuntimeCall) (s : State Rest Post Err)
      → (pay_service_fee f c m s).0 ≡ done tt
      → (bump_nonce f c m (after_fee m s)).0 ≡ done tt
      → (withdrawn : Imbalance) × ((f.withdraw m.who c.service_fee fee keep_alive s.rest).0
          ≡ some withdrawn)
        × (after_bump m s ≡ paid_state m s withdrawn)
  after_bump-paid_state m s paid bumped =
      let (withdrawn, taken, left) = pay_service_fee_done f c m s paid in
      (
        withdrawn,
        taken,
        (bump_nonce_done f c m (after_fee m s) bumped).1
            ∙ ap
                (λ (r : State Rest Post Err). record r {
                  account_nonce = insert m.who ((m.nonce + 1) % u64_mod) r.account_nonce;
                })
                left,
      )

  -- A successful meta call deposits the service fee's event, exactly what the inner call deposits from
  -- the state in which that fee is paid and the nonce raised, the inner call's result, and the event
  -- of the fee that is computed after it, with the tip. Assumes that inner calls only add events.
  pub meta_call_events :
      (origin : RawOrigin) (m : MetaCall RuntimeCall) (s t : State Rest Post Err)
      → IsContained f
      → meta_call f c origin m s ≡ (done tt, t)
      → (withdrawn : Imbalance) × (deposited : List (Event Post Err)) × ((f.withdraw m.who
            c.service_fee fee keep_alive s.rest).0
          ≡ some withdrawn)
        × ((inner f c m (paid_state m s withdrawn)).1.events
            ≡ (s.events ++ (service_event f c m withdrawn ∷ [])) ++ deposited)
        × (t.events
            ≡ s.events
              ++ (service_event f c m withdrawn
                  ∷ (deposited
                      ++ (call_done m.who (inner f c m (paid_state m s withdrawn)).0
                          ∷ transaction_fee_paid m.who
                              (final_fee f c m (paid_state m s withdrawn))
                              (unwrap_or m.tip 0)
                          ∷ []))))
  meta_call_events origin m s t L e =
      let (unsigned, paid, bumped, charged) = meta_call_stages origin m s t e in
      let (withdrawn, taken, came) = after_bump-paid_state m s paid bumped in
      let b = paid_state m s withdrawn in
      let charged' : charge_and_dispatch f c m b ≡ (done tt, t) =
        ap (charge_and_dispatch f c m) (sym came) ∙ charged in
      let (deposited, extends) =
        L.appends_events m.call m.who c.call_filter
          (record b { rest = (fee_withdrawal f c m b.rest).1 }) in
      let last =
        charge_and_dispatch_events f c m b
          (ap (λ (r : Outcome (Unit {0}) × State Rest Post Err). r.0) charged') in
      (
        withdrawn,
        deposited,
        taken,
        extends,
        cc (
          ap (λ (r : Outcome (Unit {0}) × State Rest Post Err). r.1.events) charged',
          regroup s.events deposited (service_event f c m withdrawn)
              (call_done m.who (inner f c m b).0)
              (transaction_fee_paid m.who (final_fee f c m b) (unwrap_or m.tip 0)),
        ),
      )

  -- With a wrong nonce and no origin a meta call fails: with the payment error if the service fee
  -- cannot be withdrawn, else with the nonce error. No nonce changes.
  pub meta_call_wrong_nonce :
      (m : MetaCall RuntimeCall) (s : State Rest Post Err)
      → s.account_nonce m.who ≢ m.nonce
      → ((meta_call f c RawOrigin.none m s).0
          ≡ failed (
              module_error (elim (f.withdraw m.who c.service_fee fee keep_alive s.rest).0 [
                | none ↦ payment_error
                | some withdrawn ↦ nonce_error
              ])))
        × ((meta_call f c RawOrigin.none m s).1.account_nonce ≡ s.account_nonce)
  unfolding meta_call pay_service_fee bump_nonce
  meta_call_wrong_nonce m s differ = ground arith
