-- ===== src/SetupFlow/Backend.antt =====
-- internal/setupflow/network.go: the backend of the setup flow. NetworkManager is the parameter
-- `client`, with `NetworkClient` for the methods that the transitions do not use; the transitions
-- are those of internal/recovery/transitions.go, and the captive exit is the manager of
-- internal/captive/manager.go, where there is one. Its answers are given.
pub mod Known
pub mod Options
pub mod Change
mod Tests
use onboardd.Prelude.{
  ℕ, String, Bool, true, false, not, ◌&&◌, ◌||◌, Option, none, some, List, [], ◌∷◌, ltb, ◌==◌, ◌!=◌,
  ℕ_eq, string_eq, if◌then◌else◌,
}
use onboardd.Prelude.Int.{ℤ, is_positive, is_negative}
use onboardd.GoError.{
  Error, new, wrap, join, terminal, canceled, deadline_exceeded, public, Result, ok, err,
}
use onboardd.Connectivity.{Requirement, validate}
use onboardd.NetworkManager.Types.{
  Role, role_eq, Status, Profile, is_infrastructure_wifi, applies_to, AccessPoint, Activation,
  Security, device_state_activated,
}
use onboardd.NetworkManager.Settings.{
  InfrastructureOptions, AccessPointOptions, Std, build_access_point_settings,
}
use onboardd.Recovery.Addr.{Netip, Addr, v4, v6, invalid}
use onboardd.Recovery.Attempts.{
  InfrastructureTransition, SavedInfrastructureTransition, StandaloneTransition, whole_seconds,
  Outcome, returns, panics, attempt, attempt_saved, attempt_standalone,
}
use onboardd.SetupFlow.Types.{
  Mode, Network, KnownNetwork, ConnectionRequest, mode_unavailable_standalone,
  current_connection_unavailable, active_network, network_read_only, known_network_not_found,
}

pub record NetworkOptions : Type 0 where
  pub interface : String
  pub requirement : Requirement
  pub scan_wait : ℤ
  pub activation_wait : ℤ
  pub rollback_after : ℤ
  pub restoration_wait : ℤ
  pub standalone_enabled : Bool
  pub standalone : AccessPointOptions

-- The constructor, given its adapters, and the options that the backend keeps.
abbrev pub standalone_options : NetworkOptions → AccessPointOptions
standalone_options o = record o.standalone {
  interface = o.interface;
  role = Role.standalone;
  autoconnect = false;
}

unfoldable pub new_network_backend : Std → NetworkOptions → Result NetworkOptions
new_network_backend std o =
    if o.interface == "" then err (new "interface is required") else elim (validate o.requirement) [
      | some e ↦ err e
      | none ↦
          if is_negative o.scan_wait
          then err (new "scan wait cannot be negative")
          else if not (is_positive o.activation_wait) || not (is_positive o.restoration_wait)
          then err (new "activation and restoration waits must be positive")
          else if not (is_positive o.rollback_after) || not (whole_seconds o.rollback_after)
          then err (new "checkpoint rollback duration must be a positive whole number of seconds")
          else if o.standalone_enabled
          then elim (build_access_point_settings std (standalone_options o)) [
            | err e ↦ err e
            | ok built ↦ ok (record o { standalone = standalone_options o })
          ]
          else ok o
    ]

unfoldable pub product_mode : Role → Mode
product_mode Role.unset = Mode.unknown
product_mode Role.infrastructure = Mode.network
product_mode Role.provisioning = Mode.setup
product_mode Role.standalone = Mode.standalone

-- The first loop of `CurrentMode`, with the answer after it.
unfoldable pub active_profile_mode : String → List Profile → Mode
active_profile_mode uuid [] = Mode.network
active_profile_mode uuid (p ∷ ps) =
    if p.uuid == uuid
    then (if p.owned then product_mode p.role else Mode.network)
    else active_profile_mode uuid ps

abbrev pub intends : Role → Profile → Bool
intends role p = p.owned && p.role == role && p.autoconnect

abbrev pub any_intends : Role → List Profile → Bool
any_intends role [] = false
any_intends role (p ∷ ps) = intends role p || any_intends role ps

unfoldable pub mode_of : Status → List Profile → Mode
mode_of s ps =
    if s.device.active_uuid != ""
    then active_profile_mode s.device.active_uuid ps
    else if any_intends Role.standalone ps
    then Mode.standalone
    else if any_intends Role.infrastructure ps
    then Mode.network
    else Mode.unknown

-- The two loops that list: access points of an unknown security are left out.
unfoldable pub networks_of : List AccessPoint → List Network
networks_of [] = []
networks_of (a ∷ as') =
    let listed = λ (security : String).
      (record { ssid = a.ssid; security = security; strength = a.strength }) ∷ networks_of as' in
    elim a.security [
      | Security.open_network ↦ listed "open"
      | Security.wep ↦ networks_of as'
      | Security.wpa ↦ listed "protected"
      | Security.wpa2 ↦ listed "protected"
    ]

abbrev pub is_managed : String → Profile → Bool
is_managed interface p = p.owned && p.role == Role.infrastructure && p.interface == interface

unfoldable pub is_listed : String → Profile → Bool
unfolding is_infrastructure_wifi applies_to
is_listed interface p =
    not (p.ssid == "" || not (is_infrastructure_wifi p) || not (applies_to p interface))

abbrev pub known_network : String → Status → Profile → KnownNetwork
known_network interface s p =
    let managed = is_managed interface p in
    let active = p.uuid == s.device.active_uuid in
    record {
      uuid = p.uuid;
      ssid = p.ssid;
      managed = managed;
      active = active;
      automatic = p.autoconnect;
      can_connect = managed && not active;
      can_forget = managed && not active;
    }

unfoldable pub known_networks_of : String → Status → List Profile → List KnownNetwork
unfolding is_listed
known_networks_of interface s [] = []
known_networks_of interface s (p ∷ ps) =
    if is_listed interface p
    then known_network interface s p ∷ known_networks_of interface s ps
    else known_networks_of interface s ps

unfoldable pub find_profile : String → List Profile → Option Profile
find_profile uuid [] = none
find_profile uuid (p ∷ ps) = if p.uuid == uuid then some p else find_profile uuid ps

unfoldable pub manages_infrastructure_profile : String → Profile → Bool
manages_infrastructure_profile interface p =
    p.owned && p.role == Role.infrastructure && p.interface == interface && is_infrastructure_wifi p

-- The refusals of `ForgetKnownNetwork` and `ConnectKnownNetwork` before they touch anything.
unfoldable pub forget_refusal : String → Status → Profile → Option Error
unfolding manages_infrastructure_profile
forget_refusal interface s p =
    if p.uuid == s.device.active_uuid
    then some (
        public "active_network"
          "The network currently in use cannot be forgotten. Connect to another network first.")
    else if not (manages_infrastructure_profile interface p)
    then some (
        public "network_read_only"
          "This network profile is managed outside onboardd and cannot be forgotten here.")
    else none

unfoldable pub connect_refusal : String → Status → Profile → Option Error
unfolding manages_infrastructure_profile
connect_refusal interface s p =
    if p.uuid == s.device.active_uuid
    then some active_network
    else if not (manages_infrastructure_profile interface p)
    then some network_read_only
    else none

-- `address.Is4() && !address.IsUnspecified()`
abbrev pub is_specified_v4 : Result Addr → Option Addr
is_specified_v4 (err e) = none
is_specified_v4 (ok invalid) = none
is_specified_v4 (ok (v4 a)) = if a != 0 then some (v4 a) else none
is_specified_v4 (ok (v6 a zone)) = none

unfoldable pub first_ipv4 : Netip → List String → Option Addr
first_ipv4 netip [] = none
first_ipv4 netip (value ∷ values) = elim (is_specified_v4 (netip.parse_addr value)) [
  | some address ↦ some address
  | none ↦ first_ipv4 netip values
]

unfoldable pub previous_connection_of : Netip → Status → Result (String × Addr)
previous_connection_of netip s =
    if s.device.state != device_state_activated || s.device.active_uuid == ""
    then err current_connection_unavailable
    else elim (first_ipv4 netip s.device.ipv4_addresses) [
      | some address ↦ ok (s.device.active_uuid, address)
      | none ↦ err current_connection_unavailable
    ]
