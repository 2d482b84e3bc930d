-- ===== src/Observability/Health/Tests.antt =====
-- Tests of internal/observability/health.go.
use onboardd.Prelude.{String, false, List, [], ◌∷◌, contains, insert, delete, refl, ◌≡◌}
use onboardd.Appliance.Types.{Stage, Mode, Reason}
use onboardd.Observability.Health.{
  Status, runtime, reconciler, component_eq, new_health, derive, observe_network_state,
  component_retry, Op, observe, retry, take, apply, apply_all,
}
use onboardd.Observability.Health.Laws.{
  last_stage, Inv, is_degraded, apply_all-Inv, degraded-is_degraded,
}

-- The reconciler fails, the network settles, and the runtime is still degraded.
abbrev history : List Op
history =
    observe 1 Stage.failed Mode.none Reason.observation_failed 10
    ∷ retry runtime 11
    ∷ take
    ∷ observe 2 Stage.infrastructure Mode.infrastructure Reason.infrastructure_ready 12
    ∷ []

is_recovering : (apply_all (new_health 9) history).snapshot.status ≡ Status.recovering
unfolding apply_all apply new_health derive observe_network_state component_retry insert delete
is_recovering = refl

apply_all-Inv_example :
    Inv (apply_all (new_health 9) history)
    × ((apply_all (new_health 9) history).snapshot.stage ≡ last_stage history Stage.unset)
apply_all-Inv_example = apply_all-Inv 9 history

abbrev post : String
post = "POST"

degraded-is_degraded_example :
    contains reconciler (apply_all (new_health 9) history).degraded
    ≡ is_degraded reconciler history false
degraded-is_degraded_example = degraded-is_degraded reconciler 9 history
