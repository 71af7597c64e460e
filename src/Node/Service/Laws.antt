-- ===== src/Node/Service/Laws.antt =====
-- What a start of the node spawns, and that the network starts last or not at all.
use substrate_evm_account_ma.Node.Startup.Laws.{
  starts, starts-append, Keeps, Keeps->>=, Keeps-try, Keeps-expect, Keeps-pure, Keeps-spawn,
  Keeps-service_tasks, Keeps-when, is_done,
}
use substrate_evm_account_ma.Node.Substrate.{Config, Parts, Substrate}
use substrate_evm_account_ma.Prelude.{
  if◌then◌else◌, arith, ◌+◌, ◌≡◌, List, Option, ◌∷◌, [], none, some,
}
use substrate_evm_account_ma.Node.Service.{
  new_full, start_voter, start_authoring, prepare_full, filter_non_empty, make_telemetry,
  new_partial,
}
use substrate_evm_account_ma.Node.Startup.{
  ◌>>=◌, bind, done, failed, panicked, act, Started, Action, start_network,
}

module _ {t : Parts} (l : Substrate t) where
  Keeps-make_telemetry : (o : Option (List t.Endpoint)) → Keeps (make_telemetry l o)
  Keeps-make_telemetry none = (Keeps-pure _)
  Keeps-make_telemetry (some endpoints) = Keeps->>= (Keeps-try _) (λ w. (Keeps-pure _))

  pub Keeps-new_partial : (config : Config t) → Keeps (new_partial l config)
  unfolding new_partial
  Keeps-new_partial config =
      Keeps->>= (Keeps-make_telemetry (filter_non_empty config.telemetry_endpoints)) (λ telemetry.
        Keeps->>= (Keeps-try _) (λ parts. Keeps->>= (Keeps-when _ (Keeps-spawn _)) (λ u.
          Keeps->>= (Keeps-try _) (λ grandpa.
            Keeps->>= (Keeps-try _) (λ slot. Keeps->>= (Keeps-try _) (λ queue. (Keeps-pure _)))))))

  Keeps-prepare_full : (config : Config t) → Keeps (prepare_full l config)
  unfolding prepare_full start_authoring start_voter
  Keeps-prepare_full config = Keeps->>= (Keeps-new_partial config) (λ p.
      Keeps->>= (Keeps-expect _ _) (λ genesis_hash. Keeps->>= (Keeps-try _) (λ built.
        Keeps->>= (Keeps-when _ (Keeps-spawn _)) (λ u. Keeps->>= (Keeps-try _) (λ u1.
          Keeps->>= Keeps-service_tasks (λ u2.
            Keeps->>=
              (Keeps-when _
                (Keeps->>= (Keeps-try _) (λ slot. Keeps->>= (Keeps-try _) (λ u3. (Keeps-spawn _)))))
              (λ u4. Keeps-when _ (Keeps->>= (Keeps-try _) (λ u5. (Keeps-spawn _))))))))))

start_after :
    {Err : Type 0} (r : Started Err (Unit {0}) × List Action) (log : List Action)
    → starts r.1 ≡ starts log
    → starts (bind r (λ u. act {Err = Err} start_network)).1
      ≡ starts log + (if is_done (bind r (λ u. act {Err = Err} start_network)).0 then 1 else 0)
unfolding act
start_after (done a, log') log e = omega (arith, e, starts-append log' (start_network ∷ []))
start_after (failed reason, log') log e = omega (arith, e)
start_after (panicked, log') log e = omega (arith, e)

-- The network is started once by a start of the node that succeeds, and not at all by one that
-- fails or panics.
pub new_full-starts :
    {t : Parts} (l : Substrate t) (config : Config t) (log : List Action)
    → starts (new_full l config log).1
      ≡ starts log + (if is_done (new_full l config log).0 then 1 else 0)
unfolding new_full ◌>>=◌
new_full-starts l config log =
    start_after (prepare_full l config log) log ((Keeps-prepare_full l config).same log)
