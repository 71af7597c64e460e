-- ===== src/Node/Startup/Laws.antt =====
-- Steps that do not start the network.
use substrate_evm_account_ma.Prelude.{
  refl, suc, ◌+◌, ℕ, ◌++◌, ◌≡◌, Bool, List, Option, arith, ◌∙◌, ◌⊎◌, ◌∷◌, [], inl, inr, none, some,
  true, false,
}
use substrate_evm_account_ma.Node.Startup.{
  ◌>>=◌, bind, done, failed, panicked, pure, act, try, expect, when, Startup, Started, Task, Action,
  spawn, service_tasks, start_network,
}

-- How many starts of the network there are.
abbrev pub starts : List Action → ℕ
starts [] = 0
starts (start_network ∷ log) = suc (starts log)
starts (spawn task ∷ log) = starts log
starts (service_tasks ∷ log) = starts log

pub starts-append : (log log' : List Action) → starts (log ++ log') ≡ starts log + starts log'
starts-append [] log' = omega arith
starts-append (start_network ∷ log) log' = omega (arith, starts-append log log')
starts-append (spawn task ∷ log) log' = starts-append log log'
starts-append (service_tasks ∷ log) log' = starts-append log log'

-- The step does not start the network, however it ends.
pub record Keeps {Err A : Type 0} (m : Startup Err A) : Type 0 where
  pub same : (log : List Action) → starts (m log).1 ≡ starts log

bind-Keeps :
    {Err A B : Type 0} (r : Started Err A × List Action) (k : A → Startup Err B)
    → ((a : A) → Keeps (k a))
    → starts (bind r k).1 ≡ starts r.1
bind-Keeps (done a, log) k h = (h a).same log
bind-Keeps (failed e, log) k h = refl
bind-Keeps (panicked, log) k h = refl

pub Keeps->>= :
    {Err A B : Type 0} {m : Startup Err A} {k : A → Startup Err B}
    → Keeps m
    → ((a : A) → Keeps (k a))
    → Keeps (m >>= k)
unfolding ◌>>=◌
Keeps->>= {m = m} {k = k} h h' = record { same = λ log. bind-Keeps (m log) k h' ∙ h.same log }

try_same : {Err A : Type 0} (r : Err ⊎ A) (log : List Action) → starts (try r log).1 ≡ starts log
unfolding try
try_same (inl e) log = refl
try_same (inr a) log = refl

pub Keeps-try : {Err A : Type 0} (r : Err ⊎ A) → Keeps (try r)
Keeps-try r = record { same = try_same r }

expect_same :
    (Err : Type 0) {A : Type 0} (r : Option A) (log : List Action)
    → starts (expect {Err = Err} r log).1 ≡ starts log
unfolding expect
expect_same Err none log = refl
expect_same Err (some a) log = refl

pub Keeps-expect : (Err : Type 0) {A : Type 0} (r : Option A) → Keeps {Err = Err} (expect r)
Keeps-expect Err r = record { same = expect_same Err r }

pub Keeps-pure : {Err A : Type 0} (a : A) → Keeps {Err = Err} (pure a)
unfolding pure
Keeps-pure a = record { same = λ log. refl }

pub Keeps-spawn : {Err : Type 0} (task : Task) → Keeps {Err = Err} (act (spawn task))
unfolding act
Keeps-spawn task = record { same = λ log. omega (arith, starts-append log (spawn task ∷ [])) }

pub Keeps-service_tasks : {Err : Type 0} → Keeps {Err = Err} (act service_tasks)
unfolding act
Keeps-service_tasks = record { same = λ log. omega (arith, starts-append log (service_tasks ∷ [])) }

pub Keeps-when : {Err : Type 0} (b : Bool) {m : Startup Err (Unit {0})} → Keeps m → Keeps (when b m)
unfolding when pure
Keeps-when true h = record { same = λ log. h.same log }
Keeps-when false h = record { same = λ log. refl }

abbrev pub is_done : {Err A : Type 0} → Started Err A → Bool
is_done (done a) = true
is_done (failed e) = false
is_done panicked = false
