-- ===== src/Appliance/Engine/Waiting.antt =====
-- The grace timer of the loop: when it runs, that it is not restarted, and what its end does.
use onboardd.Prelude.{
  String, Bool, true, false, Bool-cases, inl, inr, List, [], ◌∷◌, All, none, some, refl, ◌≡◌, arith,
}
use onboardd.GoError.{Error, Result, ok, err}
use onboardd.Connectivity.{Requirement}
use onboardd.Appliance.Types.{Mode, Reason, Stage, Snapshot, State, EventKind}
use onboardd.Appliance.Evaluate.{state, same_state}
use onboardd.Appliance.Evaluate.Laws.{same_state-stage}
use onboardd.Appliance.Engine.{
  Loop, init, Answers, Input, done, changed, watch_error, grace_fired, start_grace, stop_grace,
  emit, settle, report, resolve, inspect, round, reconcile_boot, start, step, run_from, run, stop,
}

abbrev pub is_waiting : Stage → Bool
is_waiting Stage.waiting_for_connectivity = true
is_waiting _ = false

-- The context is not cancelled while `reconcile` runs.
pub record Live (a : Answers) : Type 0 where
  pub boot_sent : a.boot_sent ≡ true
  pub not_cancelled : a.snapshot_cancelled ≡ false
  pub sent : a.sent ≡ true

abbrev pub LiveInput : Input → Type 0
LiveInput (changed a) = Live a
LiveInput (grace_fired a) = Live a
LiveInput _ = Unit

-- While the loop runs, the timer runs exactly while the engine waits.
abbrev pub TimerFits : Loop → Type 0
TimerFits l = l.running ≡ true → l.grace ≡ is_waiting l.current.stage

-- A send that succeeds, or is not needed, leaves the engine in the stage that is reported.
pub stage-emit :
    (l : Loop) (next : State) (kind : EventKind) (sent : Bool)
    → sent ≡ true
    → (emit l next kind sent).0.current.stage ≡ next.stage
unfolding emit
stage-emit l next kind sent h = elim (Bool-cases (same_state l.current next)) [
  | inl same ↦ rw same (same_state-stage l.current next same)
  | inr different ↦ rw (different, h)
]

-- A send fails only where the context is cancelled.
pub emit_kept :
    (l : Loop) (next : State) (kind : EventKind) (sent : Bool)
    → sent ≡ true
    → (emit l next kind sent).1 ≡ true
unfolding emit
emit_kept l next kind sent h = ground arith

pub grace-emit :
    (l : Loop) (next : State) (kind : EventKind) (sent : Bool)
    → ((emit l next kind sent).0.grace ≡ l.grace)
      × ((emit l next kind sent).0.timers ≡ l.timers)
      × ((emit l next kind sent).0.running ≡ l.running)
unfolding emit
grace-emit l next kind sent = ground arith

settle-TimerFits :
    (l : Loop) (next : State) (kind : EventKind) (sent : Bool)
    → sent ≡ true
    → (settle l next kind sent).0.grace ≡ is_waiting (settle l next kind sent).0.current.stage
unfolding settle
settle-TimerFits l next kind sent h = ground (
  arith,
  stage-emit (start_grace l) next kind sent h,
  stage-emit (stop_grace l) next kind sent h,
  grace-emit (start_grace l) next kind sent,
  grace-emit (stop_grace l) next kind sent,
)

report-TimerFits :
    (l : Loop) (failure : State) (kind : EventKind) (e : Error) (a : Answers)
    → is_waiting failure.stage ≡ false
    → Live a
    → (report l failure kind e a).0.grace ≡ is_waiting (report l failure kind e a).0.current.stage
unfolding report
report-TimerFits l failure kind e a waiting live = ground (
  arith,
  stage-emit (stop_grace l) failure kind a.sent live.sent,
  grace-emit (stop_grace l) failure kind a.sent,
)

module _ (requirement : Requirement) (error_text : Error → String) where
  pub resolve-TimerFits :
      (l : Loop) (kind : EventKind) (timed_out : Bool) (a : Answers) (r : Result Snapshot)
      → Live a
      → let l' = (resolve requirement error_text l kind timed_out a r).0 in
        l'.grace ≡ is_waiting l'.current.stage
  unfolding resolve
  resolve-TimerFits l kind timed_out a (ok snapshot) live =
      settle-TimerFits l _ kind a.sent live.sent
  resolve-TimerFits l kind timed_out a (err e) live = report-TimerFits l _ kind e a refl live

  inspect-TimerFits :
      (l : Loop) (kind : EventKind) (timed_out : Bool) (a : Answers)
      → Live a
      → let l' = (inspect requirement error_text l kind timed_out a).0 in
        l'.grace ≡ is_waiting l'.current.stage
  unfolding inspect
  inspect-TimerFits l kind timed_out a live = resolve-TimerFits l kind timed_out a a.snapshot live

  round-TimerFits :
      (l : Loop) (input : Input)
      → LiveInput input
      → TimerFits l
      → TimerFits (round requirement error_text l input)
  unfolding round stop
  round-TimerFits l (done sent) live h = ground arith
  round-TimerFits l (changed a) live h =
      ground (arith, inspect-TimerFits l EventKind.network_changed false a live)
  round-TimerFits l (watch_error none sent) live h = h
  round-TimerFits l (watch_error (some e) sent) live h = ground arith
  round-TimerFits l (grace_fired a) live h =
      ground (arith, inspect-TimerFits (stop_grace l) EventKind.grace_expired true a live)
  round-TimerFits l _ live h = h

  step-TimerFits :
      (l : Loop) (input : Input)
      → LiveInput input
      → TimerFits l
      → TimerFits (step requirement error_text l input)
  unfolding step
  step-TimerFits l input live h = ground (arith, round-TimerFits l input live h)

  run_from-TimerFits :
      (l : Loop) (inputs : List Input)
      → All LiveInput inputs
      → TimerFits l
      → TimerFits (run_from requirement error_text l inputs)
  unfolding run_from
  run_from-TimerFits l [] live h = h
  run_from-TimerFits l (input ∷ inputs) (now, later) h =
      run_from-TimerFits (step requirement error_text l input) inputs later
        (step-TimerFits l input now h)

  reconcile_boot-TimerFits :
      (l : Loop) (a : Answers)
      → Live a
      → let l' = (reconcile_boot requirement error_text l a).0 in
        l'.grace ≡ is_waiting l'.current.stage
  unfolding reconcile_boot
  reconcile_boot-TimerFits l a live =
      let next = state Stage.reconciling l.current.mode Reason.inspecting_network "" in
      ground (
        arith,
        emit_kept l next EventKind.boot a.boot_sent live.boot_sent,
        inspect-TimerFits (emit l next EventKind.boot a.boot_sent).0 EventKind.boot false a live,
      )

  start-TimerFits : (a : Answers) → Live a → TimerFits (start requirement error_text true a)
  unfolding start
  start-TimerFits a live =
      let next = state Stage.booting Mode.none Reason.starting "" in
      ground (
        arith,
        emit_kept init next EventKind.boot true refl,
        reconcile_boot-TimerFits (emit init next EventKind.boot true).0 a live,
      )

  -- As long as the context is not cancelled inside a reconciliation, the grace timer runs exactly
  -- while the engine waits for connectivity, whatever the network does: no wait is without an end.
  pub run-TimerFits :
      (a : Answers) (inputs : List Input)
      → Live a
      → All LiveInput inputs
      → (run requirement error_text true a inputs).running ≡ true
      → let l = run requirement error_text true a inputs in l.grace ≡ is_waiting l.current.stage
  unfolding run
  run-TimerFits a inputs live h =
      run_from-TimerFits (start requirement error_text true a) inputs h (start-TimerFits a live)
