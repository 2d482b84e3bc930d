-- ===== src/Recovery/Plan.antt =====
-- The plan of a protected transition (`transitionPlan` and `transitionMessages` of
-- internal/recovery/transitions.go). The closures of a plan are named: how the candidate is
-- activated, and what accepts it.
use onboardd.Prelude.{String, Bool}
use onboardd.Prelude.Int.{ℤ}
use onboardd.Connectivity.{Requirement}
use onboardd.NetworkManager.Types.{Role}
use onboardd.NetworkManager.Settings.{InfrastructureOptions, AccessPointOptions}
use onboardd.Recovery.Addr.{Addr, addr_eq}

pub record Messages : Type 0 where
  pub checkpoint : String
  pub activate : String
  pub wait : String
  pub inspect : String
  pub finalize : String
  pub commit : String
  pub rejected : String

abbrev pub infrastructure_messages : Messages
infrastructure_messages = record {
  checkpoint = "protect current connection with checkpoint";
  activate = "activate infrastructure profile";
  wait = "wait for candidate infrastructure profile";
  inspect = "inspect candidate connectivity";
  finalize = "select infrastructure mode";
  commit = "commit infrastructure transition";
  rejected = "remove rejected infrastructure profile";
}

abbrev pub standalone_messages : Messages
standalone_messages = record {
  checkpoint = "protect setup AP with checkpoint";
  activate = "activate standalone profile";
  wait = "wait for standalone profile";
  inspect = "inspect standalone profile";
  finalize = "select standalone mode";
  commit = "commit standalone transition";
  rejected = "remove rejected standalone profile";
}

-- The closures `activate` of the three plans.
pub data Candidate : Type 0 where
  connect : InfrastructureOptions → Candidate
  saved : String → Candidate
  access_point : AccessPointOptions → Candidate

-- The closures `accept`: `Infrastructure.accept`, and the one of `Standalone.Attempt`.
pub data Acceptance : Type 0 where
  policy : Requirement → Acceptance
  active_at : Addr → Acceptance

pub record Plan : Type 0 where
  pub interface_name : String
  pub role : Role
  pub ssid : String
  pub activation_wait : ℤ
  pub rollback_after : ℤ
  pub restoration_wait : ℤ
  pub previous_uuid : String
  pub previous_address : Addr
  pub remove_rejected : Bool
  pub messages : Messages
  pub candidate : Candidate
  pub acceptance : Acceptance
