-- ===== src/SetupFlow/Slot/Tests.antt =====
-- Tests of internal/setupflow/service.go: a connection is started, acknowledged, and shut down.
use onboardd.Prelude.{◌≤◌, String, true, false, none, contains, length, string_eq, refl, ◌≡◌, ◌⊎◌}
use onboardd.GoError.{ok}
use onboardd.SetupFlow.Types.{OperationKind, ConnectionRequest}
use onboardd.SetupFlow.Slot.{
  Action, Service, new_service, is_active, is_pending, is_some, operation_history_limit,
  active_operation, trim_history, reserve, start, begin_operation, shutdown, begin_forget, Forget,
}
use onboardd.SetupFlow.Slot.Reach.{
  starts, begins, Reach, here, next, single_flight, history_bounded,
}
use onboardd.SetupFlow.Slot.Life.{answer_of, Moves, Step-Moves, shutdown_drains}

abbrev first : String
first = "5f1c"

abbrev home : Action
home =
    Action.connect
      (record { ssid = "home"; password = "password"; is_open = false; hidden = false })

unfoldable started : Service
started = (start new_service OperationKind.connect "home" home (ok first) 5).0

unfoldable acknowledged : Service
acknowledged = (begin_operation started first 6).0

to_started : Reach new_service started
unfolding started
to_started = next here (starts new_service OperationKind.connect "home" home first 5 refl)

to_acknowledged : Reach new_service acknowledged
unfolding acknowledged
to_acknowledged = next to_started (begins started first 6)

runs : is_active (acknowledged.operations first) ≡ true
unfolding acknowledged started start reserve active_operation trim_history begin_operation
runs = refl

-- A running operation keeps a profile from being forgotten, and a second one from starting.
forget_conflicts :
    (begin_forget started).1
    ≡ Forget.conflict (record {
      id = first;
      kind = OperationKind.connect;
      state = onboardd.SetupFlow.Types.pending;
      network = "home";
      failure = none;
      created_at = 5;
      finished_at = none;
    })
unfolding started start reserve active_operation trim_history begin_forget
forget_conflicts = refl

single_flight_example : first ≡ first
single_flight_example = single_flight first first to_acknowledged runs runs

history_bounded_example :
    (length acknowledged.order ≤ operation_history_limit)
    × (contains first acknowledged.order ≡ is_some (acknowledged.operations first))
history_bounded_example = history_bounded first to_acknowledged

Step-Moves_example :
    Moves first
      (answer_of (begins started first 6))
      (started.operations first)
      (acknowledged.operations first)
unfolding acknowledged
Step-Moves_example = Step-Moves first to_started (begins started first 6)

shutdown_drains_example :
    (is_pending ((shutdown acknowledged 7).operations first) ≡ false)
    × (is_active ((shutdown acknowledged 7).operations first)
        ≡ contains first (shutdown acknowledged 7).workers)
    × ((contains first (shutdown acknowledged 7).workers ≡ false)
        ⊎ (contains first acknowledged.workers ≡ true))
shutdown_drains_example = shutdown_drains first 7 to_acknowledged here
