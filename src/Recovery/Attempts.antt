-- ===== src/Recovery/Attempts.antt =====
-- `Infrastructure.Attempt`, `Infrastructure.AttemptSaved` and `Standalone.Attempt` of
-- internal/recovery/transitions.go: the options that are refused before anything is touched, and
-- the plans. `ParsePrefix` of `net/netip` is the parameter `parse_prefix`.
pub mod Laws
mod Tests
use onboardd.Prelude.{
  ℕ, ◌%◌, ◌^◌, String, Bool, true, false, not, ◌&&◌, ◌||◌, Option, none, some, ◌==◌, nat_eq, ℕ_eq,
  string_eq, if◌then◌else◌,
}
use onboardd.Prelude.Int.{ℤ, pos, negsuc, is_positive}
use onboardd.GoError.{Error, new, wrap, Result, ok, err}
use onboardd.Connectivity.{Requirement, validate}
use onboardd.NetworkManager.Types.{Role, Activation}
use onboardd.NetworkManager.Settings.{
  InfrastructureOptions, AccessPointOptions, Settings, Std, build_infrastructure_settings,
  build_access_point_settings,
}
use onboardd.Recovery.Addr.{Netip, Addr, usable_ipv4}
use onboardd.Recovery.Client.{Client, Run}
use onboardd.Recovery.Plan.{
  Plan, connect, saved, access_point, policy, active_at, infrastructure_messages,
  standalone_messages,
}
use onboardd.Recovery.Transition.{run_transition}

pub record InfrastructureTransition : Type 0 where
  pub interface : String
  pub candidate : InfrastructureOptions
  pub requirement : Requirement
  pub activation_wait : ℤ
  pub rollback_after : ℤ
  pub restoration_wait : ℤ
  pub previous_uuid : String
  pub previous_address : Addr

pub record SavedInfrastructureTransition : Type 0 where
  pub interface : String
  pub uuid : String
  pub ssid : String
  pub requirement : Requirement
  pub activation_wait : ℤ
  pub rollback_after : ℤ
  pub restoration_wait : ℤ
  pub previous_uuid : String
  pub previous_address : Addr

pub record StandaloneTransition : Type 0 where
  pub interface : String
  pub candidate : AccessPointOptions
  pub activation_wait : ℤ
  pub rollback_after : ℤ
  pub restoration_wait : ℤ
  pub previous_uuid : String
  pub previous_address : Addr

-- transitionCheck
pub record Check : Type 0 where
  pub interface_name : String
  pub requirement : Option Requirement
  pub activation_wait : ℤ
  pub rollback_after : ℤ
  pub restoration_wait : ℤ
  pub restoration_message : String
  pub previous_uuid : String
  pub previous_address : Addr

-- d % time.Second == 0, for a positive d in nanoseconds
abbrev pub whole_seconds : ℤ → Bool
whole_seconds (pos n) = n % 10 ^ 9 == 0
whole_seconds (negsuc n) = false

unfoldable pub infrastructure_check : String → Requirement → ℤ → ℤ → ℤ → String → Addr → Check
infrastructure_check interface requirement activation rollback restoration uuid address = record {
  interface_name = interface;
  requirement = some requirement;
  activation_wait = activation;
  rollback_after = rollback;
  restoration_wait = restoration;
  restoration_message = "provisioning restoration wait must be positive";
  previous_uuid = uuid;
  previous_address = address;
}

abbrev pub check_requirement : Option Requirement → Option Error
check_requirement none = none
check_requirement (some requirement) = validate requirement

-- Below the check of the requirement.
unfoldable pub check_rest : Check → Option Error
check_rest c =
    if not (is_positive c.activation_wait)
    then some (new "activation wait must be positive")
    else if not (is_positive c.rollback_after) || not (whole_seconds c.rollback_after)
    then some (new "checkpoint rollback duration must be a positive whole number of seconds")
    else if not (is_positive c.restoration_wait)
    then some (new c.restoration_message)
    else if c.previous_uuid == ""
    then some (new "previous profile UUID is required")
    else if not (usable_ipv4 c.previous_address)
    then some (new "previous IPv4 address must be usable")
    else none

unfoldable pub validate_transition_options : Check → Option Error
unfolding check_rest
validate_transition_options c =
    if c.interface_name == ""
    then some (new "interface is required")
    else elim (check_requirement c.requirement) [ some e ↦ some e | none ↦ check_rest c ]

-- The candidate with the fields that the transition sets.
abbrev pub infrastructure_candidate : InfrastructureTransition → InfrastructureOptions
infrastructure_candidate o = record o.candidate {
  interface = o.interface;
  autoconnect = false;
  pending = true;
}

abbrev pub infrastructure_plan : InfrastructureTransition → Plan
infrastructure_plan o = record {
  interface_name = o.interface;
  role = Role.infrastructure;
  ssid = o.candidate.ssid;
  activation_wait = o.activation_wait;
  rollback_after = o.rollback_after;
  restoration_wait = o.restoration_wait;
  previous_uuid = o.previous_uuid;
  previous_address = o.previous_address;
  remove_rejected = true;
  messages = infrastructure_messages;
  candidate = connect (infrastructure_candidate o);
  acceptance = policy o.requirement;
}

abbrev pub saved_plan : SavedInfrastructureTransition → Plan
saved_plan o = record {
  interface_name = o.interface;
  role = Role.infrastructure;
  ssid = o.ssid;
  activation_wait = o.activation_wait;
  rollback_after = o.rollback_after;
  restoration_wait = o.restoration_wait;
  previous_uuid = o.previous_uuid;
  previous_address = o.previous_address;
  remove_rejected = false;
  messages = infrastructure_messages;
  candidate = saved o.uuid;
  acceptance = policy o.requirement;
}

abbrev pub standalone_candidate : StandaloneTransition → AccessPointOptions
standalone_candidate o = record o.candidate {
  interface = o.interface;
  role = Role.standalone;
  autoconnect = false;
}

abbrev pub standalone_plan : StandaloneTransition → Addr → Plan
standalone_plan o address = record {
  interface_name = o.interface;
  role = Role.standalone;
  ssid = o.candidate.ssid;
  activation_wait = o.activation_wait;
  rollback_after = o.rollback_after;
  restoration_wait = o.restoration_wait;
  previous_uuid = o.previous_uuid;
  previous_address = o.previous_address;
  remove_rejected = true;
  messages = standalone_messages;
  candidate = access_point (standalone_candidate o);
  acceptance = active_at address;
}

-- `MustParsePrefix` panics on a text that is no prefix.
pub data Outcome (A : Type 0) : Type 0 where
  returns : A → Outcome A
  panics : Outcome A

module _ {W : Type 0} (client : Client W) (netip : Netip) (std : Std)
    (parse_prefix : String → Option Addr) (polls : ℕ) where
  abbrev pub checked : {A : Type 0} → Option Error → A → (Error → A) → A
  checked none a refuse = a
  checked (some e) a refuse = refuse e

  unfoldable pub attempt : InfrastructureTransition → Run W → Result Activation × Run W
  attempt o r =
      checked
        (validate_transition_options (
          infrastructure_check o.interface o.requirement o.activation_wait o.rollback_after
            o.restoration_wait o.previous_uuid o.previous_address))
        (elim (build_infrastructure_settings std (infrastructure_candidate o)) [
          | err e ↦ (err (wrap "validate candidate infrastructure profile" e), r)
          | ok built ↦ run_transition client netip polls (infrastructure_plan o) r
        ])
        (λ e. (err e, r))

  unfoldable pub attempt_saved : SavedInfrastructureTransition → Run W → Result Activation × Run W
  attempt_saved o r =
      if o.uuid == ""
      then (err (new "saved profile uuid is required"), r)
      else if o.ssid == ""
      then (err (new "saved profile ssid is required"), r)
      else checked
          (validate_transition_options (
            infrastructure_check o.interface o.requirement o.activation_wait o.rollback_after
              o.restoration_wait o.previous_uuid o.previous_address))
          (run_transition client netip polls (saved_plan o) r) (λ e. (err e, r))

  unfoldable pub standalone_check : StandaloneTransition → Check
  standalone_check o = record {
    interface_name = o.interface;
    requirement = none;
    activation_wait = o.activation_wait;
    rollback_after = o.rollback_after;
    restoration_wait = o.restoration_wait;
    restoration_message = "setup restoration wait must be positive";
    previous_uuid = o.previous_uuid;
    previous_address = o.previous_address;
  }

  unfoldable pub attempt_standalone :
      StandaloneTransition → Run W → Outcome (Result Activation × Run W)
  attempt_standalone o r =
      checked (validate_transition_options (standalone_check o))
        (elim (build_access_point_settings std (standalone_candidate o)) [
          | err e ↦ returns (err (wrap "validate standalone profile" e), r)
          | ok built ↦ elim (parse_prefix o.candidate.address) [
            | none ↦ panics
            | some address ↦
                returns (run_transition client netip polls (standalone_plan o address) r)
          ]
        ])
        (λ e. returns (err e, r))
