-- ===== src/Recovery/Transition/Tests.antt =====
-- Tests of internal/recovery/transitions.go: a candidate that is kept, and one that fails the fresh
-- connectivity check and is rolled back.
use onboardd.Prelude.{none, [], refl, ◌≡◌}
use onboardd.GoError.{ok}
use onboardd.Connectivity
use onboardd.Connectivity.{Requirement}
use onboardd.NetworkManager.Types.{Status, observation}
use onboardd.Recovery.Addr.{v4}
use onboardd.Recovery.Client.{
  Run, create_checkpoint, activate_profile, wait_for_activation, status, finalize_transition,
  commit_checkpoint, rollback_checkpoint, delete_owned_profile, connect_infrastructure,
  check_connectivity,
}
use onboardd.Recovery.Fixtures.{
  active, candidate, network, one_address, to_infrastructure, fresh_run,
}
use onboardd.Recovery.Protocol.{undone, phase}
use onboardd.Recovery.Transition.{
  connection_active, accept, record_intent, judge, confirm, wait_for_connection, await_previous,
  restore_previous_connection, remove_candidate, rollback_transition, run_transition,
}
use onboardd.Recovery.Transition.Outcome.{terms, Ended, run_transition-Ended}
use onboardd.Recovery.Transition.Accepted.{Kept, run_transition-Kept}
use onboardd.Recovery.Transition.Restore.{SeenActive, restore_previous_connection-SeenActive}

online_is_kept :
    (run_transition (network 4) one_address 2 to_infrastructure fresh_run).0 ≡ ok candidate
unfolding run_transition confirm judge record_intent accept Connectivity.evaluate observation
    create_checkpoint connect_infrastructure wait_for_activation status check_connectivity
    finalize_transition commit_checkpoint
online_is_kept = refl

portal_is_undone :
    phase
      (terms to_infrastructure)
      (run_transition (network 2) one_address 2 to_infrastructure fresh_run).1.calls
    ≡ undone "new"
unfolding run_transition confirm judge record_intent accept Connectivity.evaluate observation
    create_checkpoint connect_infrastructure wait_for_activation status check_connectivity
    rollback_transition rollback_checkpoint remove_candidate delete_owned_profile
    restore_previous_connection connection_active
portal_is_undone = refl

run_transition-Ended_example :
    Ended
      (network 2)
      one_address
      to_infrastructure
      (run_transition (network 2) one_address 2 to_infrastructure fresh_run)
run_transition-Ended_example =
    run_transition-Ended (network 2) one_address to_infrastructure 2 fresh_run refl

run_transition-Kept_example :
    Kept
      (network 4)
      one_address
      to_infrastructure
      candidate
      (run_transition (network 4) one_address 2 to_infrastructure fresh_run).1.calls
run_transition-Kept_example =
    run_transition-Kept (network 4) one_address 2 to_infrastructure fresh_run candidate
      online_is_kept

-- The previous profile is not active, and is activated again.
abbrev after_rollback : Run Status
after_rollback = record { world = active "new"; calls = [] }

setup_is_restored :
    (restore_previous_connection (network 4) one_address 2 to_infrastructure after_rollback).0
    ≡ none
unfolding restore_previous_connection await_previous wait_for_connection connection_active status
    activate_profile wait_for_activation
setup_is_restored = refl

restore_previous_connection-SeenActive_example :
    SeenActive
      (network 4)
      one_address
      "setup"
      (v4 170524673)
      (restore_previous_connection
        (network 4)
        one_address
        2
        to_infrastructure
        after_rollback).1.calls
restore_previous_connection-SeenActive_example =
    restore_previous_connection-SeenActive (network 4) one_address 2 to_infrastructure
      after_rollback setup_is_restored
