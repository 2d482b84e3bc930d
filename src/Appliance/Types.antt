-- ===== src/Appliance/Types.antt =====
-- internal/appliance/types.go. The string types are data types with one constructor for each
-- constant, and `unset` for the zero value "" where the program makes one.
use onboardd.Prelude.{ℕ, String, Bool, true, List, Eq, nat_eq, ◌≡◌, ◌↔◌, arith}
use onboardd.Connectivity.{Observation}

pub data Mode : Type 0 where
  unset none infrastructure standalone provisioning : Mode

pub data Stage : Type 0 where
  unset booting reconciling waiting_for_connectivity infrastructure standalone provisioning failed
        stopped :
      Stage

pub data DeviceCondition : Type 0 where
  unknown disconnected connecting activated failed : DeviceCondition

pub data Reason : Type 0 where
  unset starting inspecting_network infrastructure_ready standalone_active provisioning_active
        no_candidate waiting_for_activation waiting_for_connectivity activation_failed
        activation_timed_out connectivity_timed_out device_unmanaged observation_failed
        interrupted :
      Reason

pub record ProfileSummary : Type 0 where
  pub uuid : String
  pub mode : Mode
  pub autoconnect : Bool

pub record Snapshot : Type 0 where
  pub device_managed : Bool
  pub device_condition : DeviceCondition
  pub active_uuid : String
  pub active_mode : Mode
  pub connectivity : Observation
  pub profiles : List ProfileSummary

pub record State : Type 0 where
  pub sequence : ℕ  -- uint64
  pub stage : Stage
  pub mode : Mode
  pub reason : Reason
  pub detail : String

pub data EventKind : Type 0 where
  boot network_changed grace_expired cancelled : EventKind

pub record Transition : Type 0 where
  pub previous : State
  pub current : State
  pub trigger : EventKind

-- Each constant has its own number, and equality is that of the numbers.
abbrev pub mode_code : Mode → ℕ
mode_code Mode.unset = 0
mode_code Mode.none = 1
mode_code Mode.infrastructure = 2
mode_code Mode.standalone = 3
mode_code Mode.provisioning = 4

abbrev pub stage_code : Stage → ℕ
stage_code Stage.unset = 0
stage_code Stage.booting = 1
stage_code Stage.reconciling = 2
stage_code Stage.waiting_for_connectivity = 3
stage_code Stage.infrastructure = 4
stage_code Stage.standalone = 5
stage_code Stage.provisioning = 6
stage_code Stage.failed = 7
stage_code Stage.stopped = 8

abbrev pub reason_code : Reason → ℕ
reason_code Reason.unset = 0
reason_code starting = 1
reason_code inspecting_network = 2
reason_code infrastructure_ready = 3
reason_code standalone_active = 4
reason_code provisioning_active = 5
reason_code no_candidate = 6
reason_code waiting_for_activation = 7
reason_code Reason.waiting_for_connectivity = 8
reason_code activation_failed = 9
reason_code activation_timed_out = 10
reason_code connectivity_timed_out = 11
reason_code device_unmanaged = 12
reason_code observation_failed = 13
reason_code interrupted = 14

pub mode_beq_iff : (a b : Mode) → (nat_eq (mode_code a) (mode_code b) ≡ true) ↔ (a ≡ b)
mode_beq_iff a b = ground arith

pub stage_beq_iff : (a b : Stage) → (nat_eq (stage_code a) (stage_code b) ≡ true) ↔ (a ≡ b)
stage_beq_iff a b = ground arith

pub reason_beq_iff : (a b : Reason) → (nat_eq (reason_code a) (reason_code b) ≡ true) ↔ (a ≡ b)
reason_beq_iff a b = ground arith

instance abbrev pub mode_eq : Eq Mode
mode_eq = record { is_same = λ a b. nat_eq (mode_code a) (mode_code b); is_same_iff = mode_beq_iff }

instance abbrev pub stage_eq : Eq Stage
stage_eq = record {
  is_same = λ a b. nat_eq (stage_code a) (stage_code b);
  is_same_iff = stage_beq_iff;
}

instance abbrev pub reason_eq : Eq Reason
reason_eq = record {
  is_same = λ a b. nat_eq (reason_code a) (reason_code b);
  is_same_iff = reason_beq_iff;
}

pub reason_text : Reason → String
reason_text Reason.unset = ""
reason_text starting = "starting"
reason_text inspecting_network = "inspecting-network"
reason_text infrastructure_ready = "infrastructure-ready"
reason_text standalone_active = "standalone-active"
reason_text provisioning_active = "provisioning-active"
reason_text no_candidate = "no-infrastructure-candidate"
reason_text waiting_for_activation = "waiting-for-activation"
reason_text Reason.waiting_for_connectivity = "waiting-for-connectivity"
reason_text activation_failed = "activation-failed"
reason_text activation_timed_out = "activation-timed-out"
reason_text connectivity_timed_out = "connectivity-timed-out"
reason_text device_unmanaged = "device-unmanaged"
reason_text observation_failed = "observation-failed"
reason_text interrupted = "interrupted"
