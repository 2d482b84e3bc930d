-- ===== src/Appliance/Evaluate/Laws.antt =====
-- What `evaluate` decides, over every snapshot.
use onboardd.Prelude.{Bool, Bool-cases, inl, inr, true, false, ◌≡◌, ◌≢◌, ◌↔◌, ◌⊎◌, arith}
use mathlib.Core.Bool.{and-eq-true_iff}
use onboardd.Connectivity
use onboardd.Connectivity.{Requirement}
use onboardd.Appliance.Types.{Mode, Stage, DeviceCondition, Snapshot, State, stage_beq_iff}
use onboardd.Appliance.Evaluate.{has_autoconnect_profile, evaluate, same_state}

-- What a product may rely on when the engine reports infrastructure mode.
pub record InfrastructureReady (snapshot : Snapshot) (requirement : Requirement) : Type 0 where
  pub managed : snapshot.device_managed ≡ true
  pub active : snapshot.active_mode ≡ Mode.infrastructure
  pub not_standalone : has_autoconnect_profile snapshot.profiles Mode.standalone ≡ false
  pub not_failed : snapshot.device_condition ≢ DeviceCondition.failed
  pub accepted : (Connectivity.evaluate requirement snapshot.connectivity).accepted ≡ true

module _ (snapshot : Snapshot) (requirement : Requirement) where
  -- A snapshot is reported as infrastructure mode exactly when the device is managed and not
  -- failed, an infrastructure profile is active, no standalone profile is selected for autoconnect,
  -- and the connectivity requirement is met; whether the grace period is over does not matter.
  pub evaluate-infrastructure_iff :
      (timed_out : Bool)
      → ((evaluate snapshot requirement timed_out).stage ≡ Stage.infrastructure)
        ↔ InfrastructureReady snapshot requirement
  unfolding evaluate
  evaluate-infrastructure_iff timed_out = ground arith

  -- The end of the grace period turns a wait into provisioning, and changes no other outcome.
  pub evaluate_timed_out :
      (((evaluate snapshot requirement false).stage ≡ Stage.waiting_for_connectivity)
        × ((evaluate snapshot requirement true).stage ≡ Stage.provisioning))
      ⊎ (((evaluate snapshot requirement false).stage ≢ Stage.waiting_for_connectivity)
          × (evaluate snapshot requirement true ≡ evaluate snapshot requirement false))
  unfolding evaluate
  evaluate_timed_out = ground arith

  pub timed_out-ne-waiting :
      (evaluate snapshot requirement true).stage ≢ Stage.waiting_for_connectivity
  unfolding evaluate
  timed_out-ne-waiting = ground arith

-- Which modes go with a stage that `evaluate` reports; the other stages are never reported.
abbrev pub StageMode : Stage → Mode → Type 0
StageMode Stage.waiting_for_connectivity mode =
    (mode ≡ Mode.standalone) ⊎ (mode ≡ Mode.infrastructure)
StageMode Stage.infrastructure mode = mode ≡ Mode.infrastructure
StageMode Stage.standalone mode = mode ≡ Mode.standalone
StageMode Stage.provisioning mode = mode ≡ Mode.provisioning
StageMode Stage.failed mode = mode ≡ Mode.none
StageMode _ mode = ⊥

-- The mode that is reported fits the stage, and of the stages only waiting, the three modes and
-- failure are reported.
pub evaluate-StageMode :
    (snapshot : Snapshot) (requirement : Requirement) (timed_out : Bool)
    → let s = evaluate snapshot requirement timed_out in StageMode s.stage s.mode
unfolding evaluate
evaluate-StageMode snapshot requirement timed_out = ground arith

pub same_state-stage :
    (left right : State) → same_state left right ≡ true → left.stage ≡ right.stage
unfolding same_state
same_state-stage left right h =
    (stage_beq_iff _ _).0
      ((and-eq-true_iff _ _).0 ((and-eq-true_iff _ _).0 ((and-eq-true_iff _ _).0 h).0).0).0

pub same_state_differ :
    (left right : State) → left.stage ≢ right.stage → same_state left right ≡ false
same_state_differ left right h = elim (Bool-cases (same_state left right)) [
  | inl same ↦ absurd (h (same_state-stage left right same))
  | inr different ↦ different
]
