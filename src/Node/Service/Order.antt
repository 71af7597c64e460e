-- ===== src/Node/Service/Order.antt =====
-- What a start of the node has done, wherever it ends.
use substrate_evm_account_ma.Prelude.{
  ap, false, subst, arith, ◌↔◌, ◌∙◌, Bool, true, ◌+◌, refl, none, append-nil, some, sym,
  append_assoc, ◌∷◌, [], if◌then◌else◌, ◌≡◌, ◌++◌, List, Option,
}
use substrate_evm_account_ma.Node.Service.{
  telemetry_task, filter_non_empty, is_some, aura_task, grandpa_task, PartialComponents,
  make_telemetry, prepare_full, new_full, new_partial, start_authoring, start_voter,
}
use substrate_evm_account_ma.Node.Service.Laws.{new_full-starts}
use substrate_evm_account_ma.Node.Service.Success.{full_actions}
use substrate_evm_account_ma.Node.Startup.{panicked, failed, Task, Started, Action, spawn, done}
use substrate_evm_account_ma.Node.Startup.Laws.{starts, is_done, starts-append}
use substrate_evm_account_ma.Node.Startup.Progress.{
  Began, Reaches, Follows, Follows->>=, Follows-try, Follows-pure, Follows-act, Follows-when,
  Follows-expect, Any,
}
use substrate_evm_account_ma.Node.Substrate.{Configuration, Config, Substrate, Parts}

module _ {t : Parts} (l : Substrate t) (config : Config t) where
  make_telemetry-Follows :
      (o : Option (List t.Endpoint))
      → Follows (make_telemetry l o) [] (λ telemetry. is_some telemetry ≡ is_some o)
  make_telemetry-Follows none = Follows-pure none _ refl
  make_telemetry-Follows (some endpoints) =
      Follows->>= _ (Follows-try _) (λ worker u. Follows-pure _ _ refl)

  abbrev telemetry_actions : List Action
  telemetry_actions =
      if is_some (filter_non_empty config.telemetry_endpoints)
      then spawn telemetry_task ∷ []
      else []

  new_partial-Follows : Follows (new_partial l config) (telemetry_actions ++ []) Any
  unfolding new_partial
  new_partial-Follows =
      Follows->>= _ (make_telemetry-Follows (filter_non_empty config.telemetry_endpoints))
        (λ telemetry same. rw (sym same) (
          Follows->>= _ (Follows-try _) (λ parts u.
            Follows->>= _ (Follows-when _ (Follows-act _)) (λ u1 u2.
              Follows->>= _ (Follows-try _) (λ grandpa u3.
                Follows->>= _ (Follows-try _) (λ slot u4.
                  Follows->>= _ (Follows-try _) (λ queue u5. Follows-pure _ Any tt)))))))

  authoring-Follows :
      (p : PartialComponents t) (sync : t.SyncService)
      → Follows (start_authoring l config p sync) (spawn aura_task ∷ []) Any
  unfolding start_authoring
  authoring-Follows p sync =
      Follows->>= _ (Follows-try _)
        (λ slot u. Follows->>= _ (Follows-try _) (λ u1 u2. Follows-act _))

  voter-Follows :
      (p : PartialComponents t) (name : t.ProtocolName) (s : t.NotificationService)
      (network : t.Network) (sync : t.SyncService)
      → Follows (start_voter l config p name s network sync) (spawn grandpa_task ∷ []) Any
  unfolding start_voter
  voter-Follows p name s network sync = Follows->>= _ (Follows-try _) (λ u u1. Follows-act _)

  new_full-Follows :
      (actions : List Action) × Follows (new_full l config) actions Any
      × (actions ≡ full_actions config)
  unfolding new_full prepare_full
  new_full-Follows = (
    _,
    Follows->>= _
        (Follows->>= _ new_partial-Follows (λ p u. Follows->>= _ (Follows-expect _ _) (λ genesis u1.
          Follows->>= _ (Follows-try _) (λ built u2.
            Follows->>= _ (Follows-when _ (Follows-act _)) (λ u3 u4.
              Follows->>= _ (Follows-try _) (λ u5 u6. Follows->>= _ (Follows-act _) (λ u7 u8.
                Follows->>= _ (Follows-when _ (authoring-Follows p _))
                  (λ u9 u10. Follows-when _ (voter-Follows p _ _ _ _)))))))))
        (λ u11 u12. Follows-act _),
    simp (append_assoc, append-nil),
  )

starts_spawn : (b : Bool) (task : Task) → starts (if b then spawn task ∷ [] else []) ≡ 0
starts_spawn true task = refl
starts_spawn false task = refl

starts-full_actions :
    {Endpoint Other : Type 0} (config : Configuration Endpoint Other)
    → starts (full_actions config) ≡ 1
starts-full_actions config = simp (starts-append, starts_spawn) (omega arith)

unfinished :
    {actions log log' : List Action} (b : Began actions log log')
    → b.rest ≡ []
    → starts actions ≡ 1
    → starts log' ≡ starts log + 0
    → ⊥
unfinished {actions} {log} b nothing one counted =
    let whole : b.prefix ≡ actions =
      sym (append-nil b.prefix) ∙ (ap (λ xs. b.prefix ++ xs) (sym nothing) ∙ b.parts) in
    omega (arith, counted, ap starts b.taken, starts-append log b.prefix, ap starts whole, one)

-- How far a start has come, from what its steps say and from the starts of the network.
Began-full :
    {Err A : Type 0} (actions log : List Action) (r : Started Err A × List Action)
    → starts actions ≡ 1
    → starts r.1 ≡ starts log + (if is_done r.0 then 1 else 0)
    → Reaches log actions Any r
    → (b : Began actions log r.1) × ((is_done r.0 ≡ true) ↔ (b.rest ≡ []))
Began-full actions log (done a, log') one counted h = (
  record { prefix = actions; rest = []; parts = append-nil actions; taken = h.0 },
  (λ e. refl, λ e. refl),
)
Began-full actions log (failed e, log') one counted h =
    (h, (λ p. cc, λ p. absurd (unfinished h p one counted)))
Began-full actions log (panicked, log') one counted h =
    (h, (λ p. cc, λ p. absurd (unfinished h p one counted)))

module _ {t : Parts} (l : Substrate t) where
  -- Wherever a start of the node ends, it has taken the actions that its configuration asks for, in
  -- their order and up to some place; it has taken all of them exactly if it succeeds.
  pub new_full-Began :
      (config : Config t) (log : List Action)
      → (b : Began (full_actions config) log (new_full l config log).1) × ((is_done
              (new_full l config log).0
            ≡ true)
          ↔ (b.rest ≡ []))
  new_full-Began config log =
      let (actions, follows, same) = new_full-Follows l config in
      Began-full (full_actions config) log (new_full l config log) (starts-full_actions config)
        (new_full-starts l config log)
        (subst (λ xs. Reaches log xs Any (new_full l config log)) same (follows.at log))
