-- ===== src/Appliance/Engine/Timers.antt =====
-- The grace timer is not restarted, and what its end does.
use onboardd.Prelude.{String, Bool, true, false, none, some, refl, ◌≡◌, arith}
use onboardd.GoError.{Error, Result, ok, err}
use onboardd.Connectivity.{Requirement}
use onboardd.Appliance.Types.{Mode, Reason, Stage, Snapshot, EventKind, stage_beq_iff}
use onboardd.Appliance.Evaluate.{state, evaluate}
use onboardd.Appliance.Evaluate.Laws.{timed_out-ne-waiting}
use onboardd.Appliance.Engine.{
  Loop, Answers, Input, changed, watch_error, grace_fired, start_grace, stop_grace, settle, report,
  resolve, inspect, round, step, stop,
}
use onboardd.Appliance.Engine.Waiting.{Live, grace-emit, stage-emit}

-- The stages in which the engine does not wait any more.
abbrev pub is_outcome : Stage → Bool
is_outcome Stage.infrastructure = true
is_outcome Stage.standalone = true
is_outcome Stage.provisioning = true
is_outcome Stage.failed = true
is_outcome _ = false

timed_out-outcome :
    (snapshot : Snapshot) (requirement : Requirement)
    → is_outcome (evaluate snapshot requirement true).stage ≡ true
unfolding evaluate
timed_out-outcome snapshot requirement = ground arith

module _ (requirement : Requirement) (error_text : Error → String) where
  resolve-timers :
      (l : Loop) (kind : EventKind) (timed_out : Bool) (a : Answers) (r : Result Snapshot)
      → l.grace ≡ true
      → (resolve requirement error_text l kind timed_out a r).0.timers ≡ l.timers
  unfolding resolve settle report
  resolve-timers l kind timed_out a (ok snapshot) armed =
      let next = evaluate snapshot requirement timed_out in
      ground (
        arith,
        grace-emit (start_grace l) next kind a.sent,
        grace-emit (stop_grace l) next kind a.sent,
      )
  resolve-timers l kind timed_out a (err e) armed =
      let failure = state Stage.failed Mode.none Reason.observation_failed (error_text e) in
      ground (arith, grace-emit (stop_grace l) failure kind a.sent)

  -- After the grace period no reconciliation starts a timer.
  resolve-grace_over :
      (l : Loop) (kind : EventKind) (a : Answers) (r : Result Snapshot)
      → l.grace ≡ false
      → (resolve requirement error_text l kind true a r).0.grace ≡ false
  unfolding resolve settle report
  resolve-grace_over l kind a (ok snapshot) idle =
      let next = evaluate snapshot requirement true in
      ground (
        arith,
        (stage_beq_iff next.stage Stage.waiting_for_connectivity).0,
        timed_out-ne-waiting snapshot requirement,
        grace-emit (stop_grace l) next kind a.sent,
      )
  resolve-grace_over l kind a (err e) idle =
      let failure = state Stage.failed Mode.none Reason.observation_failed (error_text e) in
      ground (arith, grace-emit (stop_grace l) failure kind a.sent)

  round-timers :
      (l : Loop) (input : Input)
      → l.grace ≡ true
      → (round requirement error_text l input).grace ≡ true
      → (round requirement error_text l input).timers ≡ l.timers
  unfolding round inspect stop
  round-timers l (changed a) armed still =
      ground (arith, resolve-timers l EventKind.network_changed false a a.snapshot armed)
  round-timers l (grace_fired a) armed still =
      ground (arith, resolve-grace_over (stop_grace l) EventKind.grace_expired a a.snapshot refl)
  round-timers l (watch_error none sent) armed still = refl
  round-timers l (watch_error (some e) sent) armed still = ground arith
  round-timers l _ armed still = refl

  -- A timer that runs is not restarted by what happens before it fires: a round that finds it
  -- running and leaves it running has created no other, so the first wait bounds the whole wait.
  pub timers-step :
      (l : Loop) (input : Input)
      → l.grace ≡ true
      → (step requirement error_text l input).grace ≡ true
      → (step requirement error_text l input).timers ≡ l.timers
  unfolding step
  timers-step l input armed still = ground (arith, round-timers l input armed)

  -- With the grace period over, a reconciliation reports an outcome.
  resolve-outcome :
      (l : Loop) (kind : EventKind) (a : Answers) (r : Result Snapshot)
      → Live a
      → is_outcome (resolve requirement error_text l kind true a r).0.current.stage ≡ true
  unfolding resolve settle report
  resolve-outcome l kind a (ok snapshot) live =
      let next = evaluate snapshot requirement true in
      ground (
        arith,
        timed_out-outcome snapshot requirement,
        stage-emit (start_grace l) next kind a.sent live.sent,
        stage-emit (stop_grace l) next kind a.sent live.sent,
      )
  resolve-outcome l kind a (err e) live =
      let failure = state Stage.failed Mode.none Reason.observation_failed (error_text e) in
      ground (arith, live.not_cancelled, stage-emit (stop_grace l) failure kind a.sent live.sent)

  -- When the timer fires while the context is not cancelled, the engine's stage is no longer waiting
  -- and its timer is off: whatever the network looks like then, the stage is provisioning, one of
  -- the two ready modes, or a failure.
  pub grace_fired-settles :
      (l : Loop) (a : Answers)
      → Live a
      → l.running ≡ true
      → l.grace ≡ true
      → let l' = step requirement error_text l (grace_fired a) in
        (is_outcome l'.current.stage ≡ true) × (l'.grace ≡ false)
  unfolding step round inspect
  grace_fired-settles l a live running armed = ground (
    arith,
    resolve-grace_over (stop_grace l) EventKind.grace_expired a a.snapshot refl,
    resolve-outcome (stop_grace l) EventKind.grace_expired a a.snapshot live,
  )
