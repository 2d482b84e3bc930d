-- ===== src/Appliance/Evaluate.antt =====
-- `evaluate`, `hasAutoconnectProfile` and `sameState` of internal/appliance/engine.go: the state
-- that one snapshot stands for.
pub mod Laws
mod Tests
use onboardd.Prelude.{
  String, Bool, true, false, not, ◌&&◌, ◌||◌, List, any, ◌==◌, string_eq, if◌then◌else◌,
}
use onboardd.Connectivity
use onboardd.Connectivity.{Requirement}
use onboardd.Appliance.Types.{
  Mode, Stage, DeviceCondition, Reason, ProfileSummary, Snapshot, State, mode_eq, stage_eq,
  reason_eq,
}

-- `State{Stage: …, Mode: …, Reason: …, Detail: …}`: the sequence number is not set.
abbrev pub state : Stage → Mode → Reason → String → State
state stage mode reason detail = record {
  sequence = 0;
  stage = stage;
  mode = mode;
  reason = reason;
  detail = detail;
}

unfoldable pub has_autoconnect_profile : List ProfileSummary → Mode → Bool
has_autoconnect_profile profiles mode =
    any (λ profile. profile.mode == mode && profile.autoconnect) profiles

abbrev pub is_failed : DeviceCondition → Bool
is_failed DeviceCondition.failed = true
is_failed _ = false

-- The part of `evaluate` for a selected standalone profile that is not active.
unfoldable pub evaluate_standalone : Snapshot → Bool → State
evaluate_standalone snapshot timed_out =
    if is_failed snapshot.device_condition
    then state Stage.provisioning Mode.provisioning Reason.activation_failed ""
    else if timed_out
    then state Stage.provisioning Mode.provisioning Reason.activation_timed_out ""
    else state Stage.waiting_for_connectivity Mode.standalone Reason.waiting_for_activation ""

-- The part of `evaluate` below `connectivity.Evaluate`.
unfoldable pub evaluate_infrastructure : Snapshot → Requirement → Bool → State
evaluate_infrastructure snapshot requirement timed_out =
    let result = Connectivity.evaluate requirement snapshot.connectivity in
    let active = snapshot.active_mode == Mode.infrastructure in
    if active && result.accepted
    then state Stage.infrastructure Mode.infrastructure Reason.infrastructure_ready ""
    else if timed_out
    then (if active
        then state Stage.provisioning Mode.provisioning Reason.connectivity_timed_out result.reason
        else state Stage.provisioning Mode.provisioning Reason.activation_timed_out "")
    else if active
    then state Stage.waiting_for_connectivity Mode.infrastructure Reason.waiting_for_connectivity
        result.reason
    else state Stage.waiting_for_connectivity Mode.infrastructure Reason.waiting_for_activation ""

unfoldable pub evaluate : Snapshot → Requirement → Bool → State
unfolding evaluate_standalone evaluate_infrastructure
evaluate snapshot requirement timed_out =
    if not snapshot.device_managed
    then state Stage.failed Mode.none Reason.device_unmanaged ""
    else if snapshot.active_mode == Mode.provisioning
    then state Stage.provisioning Mode.provisioning Reason.provisioning_active ""
    else if snapshot.active_mode == Mode.standalone
    then state Stage.standalone Mode.standalone Reason.standalone_active ""
    else if has_autoconnect_profile snapshot.profiles Mode.standalone
    then evaluate_standalone snapshot timed_out
    else if not (
        snapshot.active_mode == Mode.infrastructure
        || has_autoconnect_profile snapshot.profiles Mode.infrastructure)
    then state Stage.provisioning Mode.provisioning Reason.no_candidate ""
    else if is_failed snapshot.device_condition
    then state Stage.provisioning Mode.provisioning Reason.activation_failed ""
    else evaluate_infrastructure snapshot requirement timed_out

unfoldable pub same_state : State → State → Bool
same_state left right =
    left.stage == right.stage
    && left.mode == right.mode
    && left.reason == right.reason
    && left.detail == right.detail
