-- ===== src/Node/Service/Panic.antt =====
-- When building or starting the node panics.
use substrate_evm_account_ma.Prelude.{none, some, ◌≡◌, List, Option}
use substrate_evm_account_ma.Node.Service.{
  new_full, new_partial, prepare_full, start_authoring, start_voter, make_telemetry,
  PartialComponents,
}
use substrate_evm_account_ma.Node.Startup.Panic.{
  PanicsOnlyIf, PanicsOnlyIf->>=, PanicsOnlyIf-pure, PanicsOnlyIf-act, PanicsOnlyIf-try,
  PanicsOnlyIf-expect, PanicsOnlyIf-when,
}
use substrate_evm_account_ma.Node.Substrate.{Parts, Config, Substrate}

module _ {t : Parts} (l : Substrate t) where
  -- A client that has no genesis block.
  abbrev pub GenesisMissing : Type 0
  GenesisMissing = (client : t.Client) × (l.block_hash client 0 ≡ none)

  make_telemetry-PanicsOnlyIf :
      {P : Type 0} (o : Option (List t.Endpoint)) → PanicsOnlyIf P (make_telemetry l o)
  make_telemetry-PanicsOnlyIf none = PanicsOnlyIf-pure none
  make_telemetry-PanicsOnlyIf (some endpoints) =
      PanicsOnlyIf->>= _ (PanicsOnlyIf-try _) (λ worker. PanicsOnlyIf-pure _)

  pub new_partial-PanicsOnlyIf :
      {P : Type 0} (config : Config t) → PanicsOnlyIf P (new_partial l config)
  unfolding new_partial
  new_partial-PanicsOnlyIf config = PanicsOnlyIf->>= _ (make_telemetry-PanicsOnlyIf _) (λ telemetry.
      PanicsOnlyIf->>= _ (PanicsOnlyIf-try _) (λ parts.
        PanicsOnlyIf->>= _ (PanicsOnlyIf-when _ _ (PanicsOnlyIf-act _)) (λ u.
          PanicsOnlyIf->>= _ (PanicsOnlyIf-try _) (λ grandpa.
            PanicsOnlyIf->>= _ (PanicsOnlyIf-try _)
              (λ slot. PanicsOnlyIf->>= _ (PanicsOnlyIf-try _) (λ queue. PanicsOnlyIf-pure _))))))

  authoring-PanicsOnlyIf :
      {P : Type 0} (config : Config t) (p : PartialComponents t) (sync : t.SyncService)
      → PanicsOnlyIf P (start_authoring l config p sync)
  unfolding start_authoring
  authoring-PanicsOnlyIf config p sync =
      PanicsOnlyIf->>= _ (PanicsOnlyIf-try _)
        (λ slot. PanicsOnlyIf->>= _ (PanicsOnlyIf-try _) (λ u. PanicsOnlyIf-act _))

  voter-PanicsOnlyIf :
      {P : Type 0} (config : Config t) (p : PartialComponents t) (name : t.ProtocolName)
      (s : t.NotificationService) (network : t.Network) (sync : t.SyncService)
      → PanicsOnlyIf P (start_voter l config p name s network sync)
  unfolding start_voter
  voter-PanicsOnlyIf config p name s network sync =
      PanicsOnlyIf->>= _ (PanicsOnlyIf-try _) (λ u. PanicsOnlyIf-act _)

  pub new_full-PanicsOnlyIf : (config : Config t) → PanicsOnlyIf GenesisMissing (new_full l config)
  unfolding new_full prepare_full
  new_full-PanicsOnlyIf config =
      PanicsOnlyIf->>= _
        (PanicsOnlyIf->>= _ (new_partial-PanicsOnlyIf config) (λ p.
          PanicsOnlyIf->>= _ (PanicsOnlyIf-expect _ (λ missing. (p.client, missing))) (λ genesis.
            PanicsOnlyIf->>= _ (PanicsOnlyIf-try _) (λ built.
              PanicsOnlyIf->>= _ (PanicsOnlyIf-when _ _ (PanicsOnlyIf-act _)) (λ u.
                PanicsOnlyIf->>= _ (PanicsOnlyIf-try _) (λ u1.
                  PanicsOnlyIf->>= _ (PanicsOnlyIf-act _) (λ u2.
                    PanicsOnlyIf->>= _ (PanicsOnlyIf-when _ _ (authoring-PanicsOnlyIf config p _))
                      (λ u3. PanicsOnlyIf-when _ _ (voter-PanicsOnlyIf config p _ _ _ _)))))))))
        (λ u4. PanicsOnlyIf-act _)
