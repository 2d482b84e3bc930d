-- ===== src/Appliance/Engine/Tests.antt =====
-- Tests of the loop of internal/appliance/engine.go.
use onboardd.Prelude.{String, true, false, List, [], ◌∷◌, refl, ◌≡◌, arith}
use onboardd.GoError.{Error, new, Result, ok, err}
use onboardd.Connectivity
use onboardd.Connectivity.{Requirement, InternetState}
use onboardd.Appliance.Types.{Mode, Stage, DeviceCondition, Snapshot}
use onboardd.Appliance.Evaluate.{has_autoconnect_profile, evaluate, same_state}
use onboardd.Appliance.Engine.{
  Loop, Answers, Input, changed, grace_fired, emit, settle, report, resolve, inspect,
  reconcile_boot, start, round, step, run_from, run,
}
use onboardd.Appliance.Engine.Links.{Linked, run-Linked}
use onboardd.Appliance.Engine.Waiting.{is_waiting, Live, run-TimerFits}
use onboardd.Appliance.Engine.Timers.{is_outcome, grace_fired-settles}

abbrev home : InternetState → Snapshot
home internet = record {
  device_managed = true;
  device_condition = DeviceCondition.activated;
  active_uuid = "home";
  active_mode = Mode.infrastructure;
  connectivity = record { activated = true; has_local_address = true; internet = internet };
  profiles = record { uuid = "home"; mode = Mode.infrastructure; autoconnect = true } ∷ [];
}

-- The context is live.
abbrev answers : Result Snapshot → Answers
answers snapshot = record {
  boot_sent = true;
  snapshot = snapshot;
  snapshot_cancelled = false;
  sent = true;
  error_sent = true;
  cancelled = false;
}

answers-Live : (snapshot : Result Snapshot) → Live (answers snapshot)
answers-Live snapshot = record { boot_sent = refl; not_cancelled = refl; sent = refl }

abbrev portal : Answers
portal = answers (ok (home InternetState.portal))

abbrev text : Error → String
text e = "error"

abbrev two_inputs : List Input
two_inputs = changed (answers (err (new "D-Bus"))) ∷ changed portal ∷ []

abbrev waiting_engine : Loop
waiting_engine = run Requirement.internet text true portal []

waits :
    (waiting_engine.current.stage ≡ Stage.waiting_for_connectivity) × (waiting_engine.grace ≡ true)
unfolding run run_from start reconcile_boot inspect resolve settle emit same_state evaluate
    has_autoconnect_profile Connectivity.evaluate
waits = (refl, refl)

runs : (run Requirement.internet text true portal two_inputs).running ≡ true
unfolding run run_from step round start reconcile_boot inspect resolve settle report emit same_state
    evaluate has_autoconnect_profile Connectivity.evaluate
runs = refl

run-Linked_example : Linked (run Requirement.internet text true portal two_inputs).transitions
run-Linked_example = run-Linked Requirement.internet text true portal two_inputs (ground arith)

run-TimerFits_example :
    let l = run Requirement.internet text true portal two_inputs in
    l.grace ≡ is_waiting l.current.stage
run-TimerFits_example =
    run-TimerFits Requirement.internet text portal two_inputs
      (answers-Live (ok (home InternetState.portal)))
      (answers-Live (err (new "D-Bus")), (answers-Live (ok (home InternetState.portal)), tt)) runs

still_waits : (step Requirement.internet text waiting_engine (changed portal)).grace ≡ true
unfolding run run_from step round start reconcile_boot inspect resolve settle emit same_state
    evaluate has_autoconnect_profile Connectivity.evaluate
still_waits = refl

waiting_engine-running : waiting_engine.running ≡ true
unfolding run run_from start reconcile_boot inspect resolve settle emit same_state evaluate
    has_autoconnect_profile Connectivity.evaluate
waiting_engine-running = refl

grace_fired-settles_example :
    let l' = step Requirement.internet text waiting_engine (grace_fired portal) in
    (is_outcome l'.current.stage ≡ true) × (l'.grace ≡ false)
grace_fired-settles_example =
    grace_fired-settles Requirement.internet text waiting_engine portal
      (answers-Live (ok (home InternetState.portal))) waiting_engine-running waits.1
