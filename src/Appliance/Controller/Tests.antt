-- ===== src/Appliance/Controller/Tests.antt =====
-- Tests of `Controller.Run` of internal/appliance/controller.go.
use onboardd.Prelude.{true, false, none, List, [], ◌∷◌, refl, ◌≡◌, arith}
use onboardd.GoError.{Error, new, terminal, err}
use onboardd.Recovery.Requests.{Requests, new_requests}
use onboardd.Appliance.Types.{Mode, Stage, Reason, State, EventKind}
use onboardd.Appliance.Evaluate.{state}
use onboardd.Appliance.Controller.{
  enter_provisioning, Controller, Input, transition, notified, requested, initial, action_for,
  apply, apply_recovery, failure_text, run_from, start, run,
}
use onboardd.Appliance.Controller.Laws.{Alternates, run-Alternates}
use onboardd.Appliance.Controller.Recovery.{leaves, Held, run_from-Held}

abbrev to : Stage → Input
to stage =
    transition
      (record {
        previous = state Stage.booting Mode.none Reason.starting "";
        current = state stage Mode.none Reason.starting "";
        trigger = EventKind.network_changed;
      })
      none false

abbrev pending : Requests
pending = record { pending = true; notify = true }

-- Recovery was requested before the controller starts.
abbrev recovering : Controller
recovering = start true pending none

recovering-Held : Held recovering
unfolding start apply_recovery apply
recovering-Held = record { awaiting = refl; entered = refl }

abbrev unmanaged : State
unmanaged = state Stage.failed Mode.none Reason.device_unmanaged ""

abbrev unmanaged_error : Error
unmanaged_error = terminal (new (failure_text Reason.device_unmanaged ""))

unmanaged_fails : action_for unmanaged ≡ err unmanaged_error
unfolding action_for
unmanaged_fails = refl

abbrev day : List Input
day = to Stage.provisioning ∷ requested ∷ notified none false ∷ to Stage.infrastructure ∷ []

run-Alternates_example : Alternates (run true new_requests none day).events
run-Alternates_example = run-Alternates true new_requests none day

-- Stale reports of infrastructure mode.
abbrev stale : List Input
stale = to Stage.infrastructure ∷ to Stage.infrastructure ∷ []

run_from-Held_example :
    Held (run_from true recovering stale)
    × (leaves (run_from true recovering stale).events ≡ leaves recovering.events)
run_from-Held_example =
    run_from-Held true recovering stale recovering-Held
      ((λ e. ground arith), ((λ e. ground arith), tt))

abbrev notified_controller : Controller
notified_controller = record (initial pending) { current = enter_provisioning }
