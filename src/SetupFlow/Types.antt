-- ===== src/SetupFlow/Types.antt =====
-- internal/setupflow/types.go, and `publicFailure` of service.go. Times are numbers.
use onboardd.Prelude.{ℕ, String, Bool, true, false, ◌||◌, Option, none, some, if◌then◌else◌}
use onboardd.GoError.{Error, new, wrap, join, terminal, canceled, deadline_exceeded, public}

pub data Mode : Type 0 where
  unknown setup network standalone : Mode

pub data OperationKind : Type 0 where
  connect standalone : OperationKind

pub data OperationState : Type 0 where
  pending running succeeded failed : OperationState

pub record Failure : Type 0 where
  pub code : String
  pub message : String

pub record Operation : Type 0 where
  pub id : String
  pub kind : OperationKind
  pub state : OperationState
  pub network : String
  pub failure : Option Failure
  pub created_at : ℕ
  pub finished_at : Option ℕ

pub record Network : Type 0 where
  pub ssid : String
  pub security : String
  pub strength : ℕ

pub record KnownNetwork : Type 0 where
  pub uuid : String
  pub ssid : String
  pub managed : Bool
  pub active : Bool
  pub automatic : Bool
  pub can_connect : Bool
  pub can_forget : Bool

pub record ConnectionRequest : Type 0 where
  pub ssid : String
  pub password : String
  pub is_open : Bool
  pub hidden : Bool

abbrev pub mode_unavailable_network : Error
mode_unavailable_network =
    public "mode_unavailable" "Connecting to a Wi-Fi network is not available."

abbrev pub mode_unavailable_standalone : Error
mode_unavailable_standalone = public "mode_unavailable" "Standalone mode is not available."

abbrev pub current_connection_unavailable : Error
current_connection_unavailable =
    public "current_connection_unavailable"
      "The device is not ready to change networks. Please try again."

abbrev pub active_network : Error
active_network = public "active_network" "The device is already connected to this network."

abbrev pub network_read_only : Error
network_read_only =
    public "network_read_only"
      "This network profile is managed outside onboardd and cannot be activated here."

abbrev pub known_network_not_found : Error
known_network_not_found = public "known_network_not_found" "This saved network no longer exists."

abbrev pub profile_change_in_progress : Error
profile_change_in_progress =
    public "profile_change_in_progress"
      "Another saved network is already being updated. Please try again."

abbrev pub interrupted_failure : Failure
interrupted_failure = record {
  code = "operation_interrupted";
  message = "The network change was interrupted. Please try again.";
}

abbrev pub service_stopping_error : Error
service_stopping_error =
    public "service_stopping" "Setup is stopping. Start it again before changing the network."

-- `errors.As` for a `*PublicError`, and `errors.Is` for the two errors of a context.
unfoldable pub as_public : Error → Option Failure
as_public (new _) = none
as_public (wrap _ e) = as_public e
as_public (join e f) = elim (as_public e) [ some failure ↦ some failure | none ↦ as_public f ]
as_public (terminal e) = as_public e
as_public canceled = none
as_public deadline_exceeded = none
as_public (public code message) = some (record { code = code; message = message })

unfoldable pub is_interrupted : Error → Bool
is_interrupted (new _) = false
is_interrupted (wrap _ e) = is_interrupted e
is_interrupted (join e f) = is_interrupted e || is_interrupted f
is_interrupted (terminal e) = is_interrupted e
is_interrupted canceled = true
is_interrupted deadline_exceeded = true
is_interrupted (public _ _) = false

unfoldable pub public_failure : Error → Failure
unfolding as_public is_interrupted
public_failure e = elim (as_public e) [
  | some failure ↦ failure
  | none ↦ if is_interrupted e then interrupted_failure else record {
    code = "internal_failure";
    message = "The network change could not be completed. Please try again.";
  }
]
