-- ===== src/NetworkManager/Rebuild.antt =====
-- `rebuildOwnedSettings`, `profilePSK` and `profileAddress` of internal/networkmanager/settings.go,
-- and `updateAutoconnect` of transitions.go, which writes a profile back with another autoconnect
-- flag. The answers of D-Bus are parameters.
mod Again
pub mod Laws
mod Tests
use onboardd.Prelude.{
  ℕ, String, Bool, true, false, not, ◌||◌, Option, none, some, List, [], ◌∷◌, ltb, ◌==◌, string_eq,
  if◌then◌else◌,
}
use onboardd.GoError.{Error, new, wrap, Result, ok, err}
use onboardd.NetworkManager.Types.{Role, Profile}
use onboardd.NetworkManager.Settings.{
  InfrastructureOptions, AccessPointOptions, Variant, addresses, Settings, Std,
  build_infrastructure_settings, build_access_point_settings,
}
use onboardd.NetworkManager.Reader.{lookup, get, variant_string, variant_bool_default}

abbrev pub is_secured : Settings → Bool
is_secured current = elim (lookup "802-11-wireless-security" current) [
  | none ↦ false
  | some s ↦ true
]

-- The secrets come first, then the settings.
unfoldable pub profile_psk : Settings → Settings → Result String
profile_psk current secrets =
    let secret = variant_string (get secrets "802-11-wireless-security" "psk") in
    let plain = variant_string (get current "802-11-wireless-security" "psk") in
    if not (secret == "")
    then ok secret
    else if not (plain == "")
    then ok plain
    else err (new "WPA password was not available from NetworkManager")

-- `print_cidr` is `fmt.Sprintf("%s/%d", …)`.
unfoldable pub profile_address : (String → ℕ → String) → Settings → Result String
profile_address print_cidr settings = elim (get settings "ipv4" "address-data") [
  | some (addresses ((address, prefix) ∷ rest)) ↦
      if address == "" || ltb 32 prefix
      then err (new "standalone profile has invalid IPv4 address-data")
      else ok (print_cidr address prefix)
  | _ ↦ err (new "standalone profile has no IPv4 address-data")
]

abbrev pub settings_only : Result (Settings × String) → Result Settings
settings_only (ok (settings, uuid)) = ok settings
settings_only (err e) = err e

abbrev pub infrastructure_again : Profile → String → Bool → Bool → Bool → InfrastructureOptions
infrastructure_again p password secured hidden enabled = record {
  id = p.id;
  uuid = p.uuid;
  interface = p.interface;
  ssid = p.ssid;
  password = password;
  is_open = not secured;
  hidden = hidden;
  autoconnect = enabled;
  priority = p.priority;
  pending = false;
}

abbrev pub standalone_again : Profile → String → String → String → Bool → AccessPointOptions
standalone_again p password address band enabled = record {
  id = p.id;
  uuid = p.uuid;
  interface = p.interface;
  ssid = p.ssid;
  password = password;
  address = address;
  role = Role.standalone;
  autoconnect = enabled;
  priority = p.priority;
  band = band;
}

-- The part after the password, for each of the two roles.
abbrev pub rebuild_infrastructure :
    Std → Profile → Settings → Result String → Bool → Result Settings
rebuild_infrastructure std p current (err e) enabled = err e
rebuild_infrastructure std p current (ok password) enabled = settings_only (
    build_infrastructure_settings std (
      infrastructure_again p password (is_secured current)
        (variant_bool_default (get current "802-11-wireless" "hidden") false) enabled))

abbrev pub rebuild_standalone :
    Std → Profile → Settings → Result String → Result String → Bool → Result Settings
rebuild_standalone std p current (err e) address enabled = err e
rebuild_standalone std p current (ok password) (err e) enabled = err e
rebuild_standalone std p current (ok password) (ok address) enabled = settings_only (
    build_access_point_settings std (
      standalone_again p password address (variant_string (get current "802-11-wireless" "band"))
        enabled))

abbrev pub rebuild_role :
    Std → (String → ℕ → String) → Role → Profile → Settings → Settings → Bool → Result Settings
rebuild_role std print_cidr Role.infrastructure p current secrets enabled =
    rebuild_infrastructure std p current
      (if is_secured current then profile_psk current secrets else ok "") enabled
rebuild_role std print_cidr Role.standalone p current secrets enabled =
    rebuild_standalone std p current (profile_psk current secrets)
      (profile_address print_cidr current) enabled
rebuild_role std print_cidr Role.provisioning p current secrets enabled =
    err (new "cannot rebuild profile with role")
rebuild_role std print_cidr Role.unset p current secrets enabled =
    err (new "cannot rebuild profile with role")

unfoldable pub rebuild_owned_settings :
    Std → (String → ℕ → String) → Profile → Settings → Settings → Bool → Result Settings
rebuild_owned_settings std print_cidr p current secrets enabled =
    elim (lookup "802-11-wireless" current) [
      | none ↦ err (new "missing 802-11-wireless settings")
      | some wireless ↦ rebuild_role std print_cidr p.role p current secrets enabled
    ]

-- What `updateAutoconnect` sends, if anything, with whether it is kept in memory only; and its
-- error. `updated` is the answer of Update2.
abbrev pub Sent : Type 0
Sent = Option (Settings × Bool) × Option Error

abbrev pub send_rebuilt : Profile → Option Error → Result Settings → Sent
send_rebuilt p updated (err e) = (none, some (wrap "rebuild profile for autoconnect update" e))
send_rebuilt p updated (ok settings) = (
  some (settings, p.in_memory),
  elim updated [ none ↦ none | some e ↦ some (wrap "set autoconnect on profile" e) ],
)

abbrev pub with_secrets :
    Std → (String → ℕ → String) → Profile → Bool → Option Error → Settings → Result Settings → Sent
with_secrets std print_cidr p enabled updated current (err e) =
    (none, some (wrap "read profile secrets for autoconnect update" e))
with_secrets std print_cidr p enabled updated current (ok secrets) =
    send_rebuilt p updated (rebuild_owned_settings std print_cidr p current secrets enabled)

unfoldable pub update_autoconnect :
    Std
    → (String → ℕ → String)
    → Profile
    → Bool
    → Result Settings
    → Result Settings
    → Option Error
    → Sent
update_autoconnect std print_cidr p enabled (err e) secrets updated =
    (none, some (wrap "read profile for autoconnect update" e))
update_autoconnect std print_cidr p enabled (ok current) secrets updated =
    with_secrets std print_cidr p enabled updated current
      (if is_secured current then secrets else ok [])
