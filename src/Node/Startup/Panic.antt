-- ===== src/Node/Startup/Panic.antt =====
-- Steps that panic for a known reason only.
use substrate_evm_account_ma.Prelude.{
  none, some, inl, inr, refl, ◌≡◌, ◌⊎◌, Bool, true, false, List, Option, if◌then◌else◌,
}
use substrate_evm_account_ma.Node.Startup.{
  ◌>>=◌, bind, done, failed, panicked, pure, act, try, expect, when, Startup, Started, Action,
}

pub record PanicsOnlyIf {Err A : Type 0} (P : Type 0) (m : Startup Err A) : Type 0 where
  pub reason : (log : List Action) → (m log).0 ≡ panicked → P

bind_panicked :
    {Err A B P : Type 0} (r : Started Err A × List Action) (k : A → Startup Err B)
    → (r.0 ≡ panicked → P)
    → ((a : A) → PanicsOnlyIf P (k a))
    → (bind r k).0 ≡ panicked
    → P
bind_panicked (done a, log) k first next e = (next a).reason log e
bind_panicked (failed x, log) k first next e = cc
bind_panicked (panicked, log) k first next e = first refl

module _ {Err P : Type 0} where
  pub PanicsOnlyIf->>= :
      {A B : Type 0} {m : Startup Err A} (k : A → Startup Err B)
      → PanicsOnlyIf P m
      → ((a : A) → PanicsOnlyIf P (k a))
      → PanicsOnlyIf P (m >>= k)
  unfolding ◌>>=◌
  PanicsOnlyIf->>= {m = m} k first next = record {
    reason = λ log. bind_panicked (m log) k (first.reason log) next;
  }

  pub PanicsOnlyIf-pure : {A : Type 0} (a : A) → PanicsOnlyIf P (pure {Err = Err} a)
  unfolding pure
  PanicsOnlyIf-pure a = record { reason = λ log e. cc }

  pub PanicsOnlyIf-act : (a : Action) → PanicsOnlyIf P (act {Err = Err} a)
  unfolding act
  PanicsOnlyIf-act a = record { reason = λ log e. cc }

  pub PanicsOnlyIf-try : {A : Type 0} (r : Err ⊎ A) → PanicsOnlyIf P (try r)
  unfolding try
  PanicsOnlyIf-try (inl x) = record { reason = λ log e. cc }
  PanicsOnlyIf-try (inr a) = record { reason = λ log e. cc }

  pub PanicsOnlyIf-expect :
      {A : Type 0} (r : Option A) → (r ≡ none → P) → PanicsOnlyIf P (expect {Err = Err} r)
  unfolding expect
  PanicsOnlyIf-expect none h = record { reason = λ log e. h refl }
  PanicsOnlyIf-expect (some a) h = record { reason = λ log e. cc }

  pub PanicsOnlyIf-if :
      {A : Type 0} (b : Bool) (m n : Startup Err A)
      → PanicsOnlyIf P m
      → PanicsOnlyIf P n
      → PanicsOnlyIf P (if b then m else n)
  PanicsOnlyIf-if true m n h h' = h
  PanicsOnlyIf-if false m n h h' = h'

  pub PanicsOnlyIf-when :
      (b : Bool) (m : Startup Err (Unit {0})) → PanicsOnlyIf P m → PanicsOnlyIf P (when b m)
  unfolding when
  PanicsOnlyIf-when b m h = PanicsOnlyIf-if b m (pure tt) h (PanicsOnlyIf-pure tt)
