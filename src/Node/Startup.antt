-- ===== src/Node/Startup.antt =====
-- The steps that start a service: each may fail or panic, and acts on the outside.
pub mod Laws
pub mod Progress
pub mod Panic
use substrate_evm_account_ma.Prelude.{
  [], inr, none, if◌then◌else◌, inl, some, ◌∷◌, Bool, Bytes, List, Option, ◌++◌, ◌⊎◌,
}

-- A task given to the task manager, as its name, its group and how it is spawned.
pub record Task : Type 0 where
  pub name : Bytes
  pub group : Option Bytes
  pub essential : Bool
  pub blocking : Bool

-- What is seen of a start: the tasks spawned here, those that `sc_service::spawn_tasks` spawns, and
-- the start of the network.
pub data Action : Type 0 where
  spawn : Task → Action
  service_tasks : Action
  start_network : Action

-- A result, or the panic of an `expect`.
pub data Started (Err A : Type 0) : Type 0 where
  done : A → Started Err A
  failed : Err → Started Err A
  panicked : Started Err A

-- The actions taken so far come in and go out.
abbrev pub Startup : Type 0 → Type 0 → Type 0
Startup Err A = List Action → Started Err A × List Action

module _ {Err : Type 0} where
  abbrev pub bind :
      {A B : Type 0}
      → Started Err A × List Action
      → (A → Startup Err B)
      → Started Err B × List Action
  bind (done a, log) k = k a log
  bind (failed e, log) k = (failed e, log)
  bind (panicked, log) k = (panicked, log)

  infixl 5 ◌>>=◌
  unfoldable pub ◌>>=◌ : {A B : Type 0} → Startup Err A → (A → Startup Err B) → Startup Err B
  (m >>= k) log = bind (m log) k

  infixl 5 ◌>>◌
  abbrev pub ◌>>◌ : {A B : Type 0} → Startup Err A → Startup Err B → Startup Err B
  m >> k = m >>= λ _. k

  unfoldable pub pure : {A : Type 0} → A → Startup Err A
  pure a log = (done a, log)

  unfoldable pub act : Action → Startup Err (Unit {0})
  act a log = (done tt, log ++ (a ∷ []))

  -- `?`
  unfoldable pub try : {A : Type 0} → Err ⊎ A → Startup Err A
  try (inl e) log = (failed e, log)
  try (inr a) log = (done a, log)

  unfoldable pub expect : {A : Type 0} → Option A → Startup Err A
  expect none log = (panicked, log)
  expect (some a) log = (done a, log)

  unfoldable pub when : Bool → Startup Err (Unit {0}) → Startup Err (Unit {0})
  when b m = if b then m else pure tt
