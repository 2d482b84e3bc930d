-- ===== src/Appliance/Observer.antt =====
-- `NetworkManagerObserver.Snapshot`, `profileMode` and `normalizedDeviceState` of
-- internal/appliance/engine.go: from the adapter's status and profiles to a snapshot.
pub mod Laws
mod Tests
use onboardd.Prelude.{
  ℕ, String, Bool, true, false, not, ◌&&◌, ◌||◌, List, [], ◌∷◌, ◌==◌, ◌!=◌, ℕ_eq, string_eq,
  if◌then◌else◌,
}
use onboardd.GoError.{Error, Result, ok, err}
use onboardd.NetworkManager.Types.{
  Role, Profile, Status, observation, device_state_disconnected, device_state_prepare,
  device_state_config, device_state_need_auth, device_state_ip_config, device_state_ip_check,
  device_state_secondaries, device_state_activated, device_state_failed,
}
use onboardd.Appliance.Types.{Mode, DeviceCondition, ProfileSummary, Snapshot, mode_eq}

unfoldable pub profile_mode : Profile → Mode
profile_mode p = elim p.role [
  | Role.infrastructure ↦ Mode.infrastructure
  | Role.standalone ↦ Mode.standalone
  | Role.provisioning ↦ Mode.provisioning
  | Role.unset ↦ if p.mode == "infrastructure" then Mode.infrastructure else Mode.none
]

unfoldable pub normalized_device_state : ℕ → DeviceCondition
normalized_device_state value =
    if value == device_state_disconnected
    then DeviceCondition.disconnected
    else if value == device_state_activated
    then DeviceCondition.activated
    else if value == device_state_failed
    then DeviceCondition.failed
    else if value == device_state_prepare
        || value == device_state_config
        || value == device_state_need_auth
        || value == device_state_ip_config
        || value == device_state_ip_check
        || value == device_state_secondaries
    then DeviceCondition.connecting
    else DeviceCondition.unknown

abbrev pub summary : Profile → ProfileSummary
summary p = record { uuid = p.uuid; mode = profile_mode p; autoconnect = p.autoconnect }

-- The loop over the profiles, as its two results.
unfoldable pub normalized_profiles : String → List Profile → List ProfileSummary
normalized_profiles interface [] = []
normalized_profiles interface (p ∷ ps) =
    let rest = normalized_profiles interface ps in
    if p.interface == interface && profile_mode p != Mode.none then summary p ∷ rest else rest

unfoldable pub active_mode : String → Mode → List Profile → Mode
active_mode active_uuid mode [] = mode
active_mode active_uuid mode (p ∷ ps) =
    active_mode active_uuid (if p.uuid == active_uuid then profile_mode p else mode) ps

abbrev pub snapshot_of : Status → List Profile → String → Snapshot
snapshot_of status profiles interface = record {
  device_managed = status.device.managed;
  device_condition = normalized_device_state status.device.state;
  active_uuid = status.device.active_uuid;
  active_mode = active_mode status.device.active_uuid Mode.none profiles;
  connectivity = observation status;
  profiles = normalized_profiles interface profiles;
}

unfoldable pub observe : Result Status → Result (List Profile) → String → Result Snapshot
observe (err e) profiles interface = err e
observe (ok status) (err e) interface = err e
observe (ok status) (ok profiles) interface = ok (snapshot_of status profiles interface)
