-- ===== src/State/Bootstrap/Admission.antt =====
-- What a bootstrap admits and what it answers to a retry (src/target/deployment_state.rs:
-- bootstrap_with_health).
use nazo_auth_ctl.Prelude.{
  ℕ, ◌≡◌, ◌⊎◌, inl, inr, refl, String, true, false, Option, none, some, List, any, eq_refl, arith,
}
use mathlib.Core.Path.{subst}
use nazo_auth_ctl.Prelude.Exec.{Outcome, ok, err}
use nazo_auth_ctl.Identifiers.{deployment_scope}
use nazo_auth_ctl.State.{
  DeploymentState, HealthRecord, ConfigState, Failure, deployment_unknown, is_producer,
}
use nazo_auth_ctl.State.Validation.{seed, validate}
use nazo_auth_ctl.State.Store.{Codec, Store, load_existing, list_deployments, persist_exact}
use nazo_auth_ctl.State.Store.Applying.{IsStorable, load_existing-persist_exact, persist_exact-ok}
use nazo_auth_ctl.State.Bootstrap.{
  BootstrapParams, bootstrapped, has_port, existing_answer, seeded, admitted, answered,
  bootstrap_with_health,
}

seed-revision :
    (reference schema : String) {config : ConfigState}
    → seed 1 reference schema ≡ some config
    → config.revision ≡ 1
unfolding seed
seed-revision reference schema h = ground arith

module _ (codec : Codec) (id : String) (params : BootstrapParams) (operation_id : String) (now : ℕ)
    (health : HealthRecord) where
  -- How a bootstrap that returned a state came by it.
  abbrev IsCreated : Store → DeploymentState → Store → Type 0
  IsCreated store r after =
      (states : List DeploymentState) × ((list_deployments codec store ≡ ok states)
        × ((any (has_port params.runtime.loopback_port) states ≡ false)
            × ((config : ConfigState) × ((seed 1 params.config_reference params.config_schema
                    ≡ some config)
                  × ((validate codec.readers.parse_url
                          (bootstrapped id params operation_id now health config)
                        ≡ true)
                      × (persist_exact codec id
                            (bootstrapped id params operation_id now health config) store
                          ≡ (ok r, after)))))))

  seeded-ok :
      (seed_result : Option ConfigState) (store : Store) {r : DeploymentState} {after : Store}
      → seeded codec id params operation_id now health seed_result store ≡ (ok r, after)
      → (config : ConfigState) × ((seed_result ≡ some config)
          × ((validate codec.readers.parse_url
                  (bootstrapped id params operation_id now health config)
                ≡ true)
              × (persist_exact codec id
                    (bootstrapped id params operation_id now health config)
                    store
                  ≡ (ok r, after))))
  seeded-ok none store h = ground arith
  seeded-ok (some config) store h = (config, (refl, ground arith))

  admitted-ok :
      (loaded : Outcome Failure (List DeploymentState)) (store : Store) {r : DeploymentState}
      {after : Store}
      → list_deployments codec store ≡ loaded
      → admitted codec id params operation_id now health loaded store ≡ (ok r, after)
      → IsCreated store r after
  admitted-ok (err failure) store e h = ground arith
  admitted-ok (ok states) store e h =
      let port = any (has_port params.runtime.loopback_port) states in
      let free : port ≡ false = ground arith in
      (states, (e, (free, seeded-ok _ store (ground (arith, free)))))

  answered-ok :
      (loaded : Outcome Failure DeploymentState) (store : Store) {r : DeploymentState}
      {after : Store}
      → answered codec id params operation_id now health loaded store ≡ (ok r, after)
      → ((loaded ≡ ok r) × ((existing_answer codec operation_id health r ≡ ok r) × (after ≡ store)))
        ⊎ ((loaded ≡ err deployment_unknown) × IsCreated store r after)
  answered-ok (ok existing) store h = inl (ground arith)
  answered-ok (err deployment_unknown) store h =
      inr (refl, admitted-ok (list_deployments codec store) store refl h)
  answered-ok (err failure) store h = ground arith

  bootstrap_with_health-ok :
      (store : Store) {r : DeploymentState} {after : Store}
      → bootstrap_with_health codec id params operation_id now health store ≡ (ok r, after)
      → (deployment_scope id ≡ true)
        × (((load_existing codec id store ≡ ok r)
              × ((existing_answer codec operation_id health r ≡ ok r) × (after ≡ store)))
            ⊎ ((load_existing codec id store ≡ err deployment_unknown) × IsCreated store r after))
  unfolding bootstrap_with_health
  bootstrap_with_health-ok store h =
      let scope : deployment_scope id ≡ true = ground arith in
      (scope, answered-ok (load_existing codec id store) store (ground (arith, scope)))

  bootstrapped-answer :
      (config : ConfigState)
      → (let t = bootstrapped id params operation_id now health config in
          existing_answer codec operation_id health t ≡ ok t)
  bootstrapped-answer config = ground (arith, eq_refl operation_id)

  -- A bootstrap that returned a state is durable and is answered again without an effect: the next
  -- load returns that state, and the same bootstrap sent again at any time returns it and leaves
  -- the store alone. It is stated for a state that is valid and reads back from its file.
  pub bootstrap-load_retry :
      (later : ℕ) (store : Store) {r : DeploymentState} {after : Store}
      → IsStorable codec r
      → bootstrap_with_health codec id params operation_id now health store ≡ (ok r, after)
      → (load_existing codec id after ≡ ok r)
        × (bootstrap_with_health codec id params operation_id later health after ≡ (ok r, after))
  unfolding bootstrap_with_health
  bootstrap-load_retry later store {r} {after} storable h =
      let (scope, cases) = bootstrap_with_health-ok store h in
      elim cases [
        | inl (l, (a, e)) ↦ (rw e l, rw (scope, e, l, a) refl)
        | inr (_, (_, (_, (_, (config, (_, (_, w))))))) ↦
            let (same, _) = persist_exact-ok codec id _ store w in
            let (_, l) =
              load_existing-persist_exact codec id _ store (subst (IsStorable codec) same storable)
                scope w in
            let loads : load_existing codec id after ≡ ok r = rw same l in
            let answer : existing_answer codec operation_id health r ≡ ok r =
              rw same (bootstrapped-answer config) in
            (loads, rw (scope, loads, answer) refl)
      ]

  -- A bootstrap that returned a state either found it, produced by the same operation with the same
  -- health, and wrote nothing; or it found no state there, the requested loopback port free among
  -- all the stored deployments, and returned a valid state at revision 1 with the requested runtime
  -- and artifacts.
  pub bootstrap-admits :
      (store : Store) {r : DeploymentState} {after : Store}
      → bootstrap_with_health codec id params operation_id now health store ≡ (ok r, after)
      → ((load_existing codec id store ≡ ok r)
          × ((is_producer operation_id r.active_host_operation ≡ true)
              × ((r.local_health.healthy ≡ health.healthy) × (after ≡ store))))
        ⊎ ((load_existing codec id store ≡ err deployment_unknown)
            × ((validate codec.readers.parse_url r ≡ true)
                × ((r.runtime ≡ params.runtime)
                    × ((r.config.revision ≡ 1)
                        × ((r.artifact ≡ params.artifact)
                            × ((states : List DeploymentState) × ((list_deployments codec store
                                    ≡ ok states)
                                  × (any (has_port r.runtime.loopback_port) states ≡ false))))))))
  bootstrap-admits store {r} {after} h =
      let (scope, cases) = bootstrap_with_health-ok store h in
      elim cases [
        | inl (l, (a, e)) ↦ inl (l, (ground arith, (ground arith, e)))
        | inr (l, (states, (listed, (free, (config, (s, (v, w))))))) ↦
            let (same, _) = persist_exact-ok codec id _ store w in
            inr (
              l,
              (
                rw same v,
                (
                  rw same refl,
                  (rw same (seed-revision _ _ s), (rw same refl, (states, (listed, rw same free)))),
                ),
              ),
            )
      ]
