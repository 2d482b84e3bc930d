-- ===== src/NetworkManager/Settings.antt =====
-- internal/networkmanager/settings.go: the profiles that onboardd writes, and what it refuses to
-- write. A map is an association list; a D-Bus variant has one constructor for each type in use.
pub mod Laws
mod Tests
use Prim.Native.String.{◌++◌, len, slice}
use onboardd.Prelude.{
  ℕ, ◌+◌, ◌%◌, String, Bool, true, false, not, ◌&&◌, ◌||◌, Option, none, some, List, [], ◌∷◌,
  length, leb, nat_eq, ◌==◌, ◌!=◌, ℕ_eq, string_eq, if◌then◌else◌,
}
use onboardd.Prelude.Int.{ℤ, pos, negsuc}
use onboardd.GoError.{Error, new, Result, ok, err}
use onboardd.NetworkManager.Types.{Role, role_eq}

pub record InfrastructureOptions : Type 0 where
  pub id : String
  pub uuid : String
  pub interface : String
  pub ssid : String
  pub password : String
  pub is_open : Bool
  pub hidden : Bool
  pub autoconnect : Bool
  pub priority : ℤ
  pub pending : Bool

pub record AccessPointOptions : Type 0 where
  pub id : String
  pub uuid : String
  pub interface : String
  pub ssid : String
  pub password : String
  pub address : String
  pub role : Role
  pub autoconnect : Bool
  pub priority : ℤ
  pub band : String

-- `bytes` is the byte slice of a text; `addresses` is the list of maps with an address and a prefix.
pub data Variant : Type 0 where
  text : String → Variant
  flag : Bool → Variant
  int32 : ℤ → Variant
  bytes : String → Variant
  addresses : List (String × ℕ) → Variant
  strings : List (String × String) → Variant

abbrev pub Section : Type 0
Section = List (String × Variant)

abbrev pub Settings : Type 0
Settings = List (String × Section)

-- What the file uses of Go's standard library: whether `hex.DecodeString` succeeds,
-- `strings.ReplaceAll` and `strings.ToLower`. `random_uuid` is the answer of the branch of
-- `resolveUUID` that draws random bytes. `parse_cidr` gives the address and the prefix of an IPv4
-- CIDR, where `net.ParseCIDR` accepts one.
pub record Std : Type 0 where
  pub is_hex : String → Bool
  pub replace_all : String → String → String → String
  pub to_lower : String → String
  pub random_uuid : Result String
  pub parse_cidr : String → Option (String × ℕ)

abbrev pub role_text : Role → String
role_text Role.unset = ""
role_text Role.infrastructure = "infrastructure"
role_text Role.provisioning = "provisioning"
role_text Role.standalone = "standalone"

unfoldable pub valid_ssid : String → Bool
valid_ssid ssid = not (len ssid == 0) && leb (len ssid) 32

unfoldable pub valid_psk : Std → String → Bool
valid_psk std password =
    (leb 8 (len password) && leb (len password) 63) || (len password == 64 && std.is_hex password)

-- -999 ≤ priority ≤ 999
unfoldable pub valid_priority : ℤ → Bool
valid_priority (pos n) = leb n 999
valid_priority (negsuc n) = leb n 998

abbrev is_dash : String → ℕ → Bool
is_dash value i = slice value i (i + 1) == "-"

unfoldable pub valid_uuid : Std → String → Bool
valid_uuid std value =
    len value == 36
    && is_dash value 8
    && is_dash value 13
    && is_dash value 18
    && is_dash value 23
    && std.is_hex (std.replace_all value "-" "")

unfoldable pub resolve_uuid : Std → String → Result String
resolve_uuid std value =
    if value != ""
    then (if valid_uuid std value
        then ok (std.to_lower value)
        else err (new "UUID must use the canonical 8-4-4-4-12 format"))
    else std.random_uuid

unfoldable pub parse_address : Std → String → Result (String × ℕ)
parse_address std cidr = elim (std.parse_cidr (if cidr == "" then "10.42.0.1/24" else cidr)) [
  | none ↦ err (new "address must be a valid IPv4 CIDR")
  | some parsed ↦ ok parsed
]

unfoldable pub metadata : Role → Bool → Section
metadata role pending =
    let owned : List (String × String) =
      ("onboardd.owner", "onboardd")
      ∷ ("onboardd.role", role_text role)
      ∷ ("onboardd.schema", "1")
      ∷ [] in
    ("data", strings (if pending then ("onboardd.pending", "true") ∷ owned else owned)) ∷ []

abbrev wpa_security : String → Section
wpa_security password = ("key-mgmt", text "wpa-psk") ∷ ("psk", text password) ∷ []

abbrev connection : String → String → String → Bool → ℤ → Section
connection id uuid interface autoconnect priority =
    ("id", text id)
    ∷ ("uuid", text uuid)
    ∷ ("type", text "802-11-wireless")
    ∷ ("interface-name", text interface)
    ∷ ("autoconnect", flag autoconnect)
    ∷ ("autoconnect-priority", int32 priority)
    ∷ []

-- The checks of `BuildInfrastructureSettings` before the UUID, in order.
unfoldable pub check_infrastructure : Std → InfrastructureOptions → Option Error
check_infrastructure std o =
    if o.interface == ""
    then some (new "interface is required")
    else if not (valid_ssid o.ssid)
    then some (new "SSID must contain between 1 and 32 bytes")
    else if o.is_open && o.password != ""
    then some (new "open network cannot include a password")
    else if not o.is_open && not (valid_psk std o.password)
    then some (new "WPA password must be 8-63 bytes or 64 hexadecimal characters")
    else if not (valid_priority o.priority)
    then some (new "autoconnect priority must be between -999 and 999")
    else none

unfoldable pub infrastructure_settings : InfrastructureOptions → String → Settings
unfolding metadata
infrastructure_settings o uuid =
    let plain : Settings =
      (
        "connection",
        connection (if o.id == "" then "onboardd Wi-Fi " ++ o.ssid else o.id) uuid o.interface
            o.autoconnect o.priority,
      )
      ∷ (
        "802-11-wireless",
        ("mode", text "infrastructure") ∷ ("ssid", bytes o.ssid) ∷ ("hidden", flag o.hidden) ∷ [],
      )
      ∷ ("ipv4", ("method", text "auto") ∷ [])
      ∷ ("ipv6", ("method", text "auto") ∷ [])
      ∷ ("user", metadata Role.infrastructure o.pending)
      ∷ [] in
    if o.is_open then plain else ("802-11-wireless-security", wpa_security o.password) ∷ plain

unfoldable pub build_infrastructure_settings :
    Std → InfrastructureOptions → Result (Settings × String)
build_infrastructure_settings std o = elim (check_infrastructure std o) [
  | some e ↦ err e
  | none ↦ elim (resolve_uuid std o.uuid) [
    | err e ↦ err e
    | ok uuid ↦ ok (infrastructure_settings o uuid, uuid)
  ]
]

-- The checks of `BuildAccessPointSettings` before the address, in order.
unfoldable pub check_access_point : Std → AccessPointOptions → Option Error
check_access_point std o =
    if o.role != Role.provisioning && o.role != Role.standalone
    then some (new "access point role must be provisioning or standalone")
    else if o.interface == ""
    then some (new "interface is required")
    else if not (valid_ssid o.ssid)
    then some (new "SSID must contain between 1 and 32 bytes")
    else if not (valid_psk std o.password)
    then some (new "WPA password must be 8-63 bytes or 64 hexadecimal characters")
    else if not (valid_priority o.priority)
    then some (new "autoconnect priority must be between -999 and 999")
    else if o.band != "" && o.band != "bg" && o.band != "a" && o.band != "6GHz"
    then some (new "band must be bg, a, or 6GHz")
    else none

unfoldable pub access_point_settings : AccessPointOptions → String × ℕ → String → Settings
unfolding metadata
access_point_settings o address uuid =
    let wireless : Section = ("mode", text "ap") ∷ ("ssid", bytes o.ssid) ∷ [] in
    (
      "connection",
      connection (if o.id == "" then "onboardd " ++ role_text o.role else o.id) uuid o.interface
          o.autoconnect o.priority,
    )
    ∷ ("802-11-wireless", if o.band != "" then ("band", text o.band) ∷ wireless else wireless)
    ∷ ("802-11-wireless-security", wpa_security o.password)
    ∷ ("ipv4", ("method", text "shared") ∷ ("address-data", addresses (address ∷ [])) ∷ [])
    ∷ ("ipv6", ("method", text "disabled") ∷ [])
    ∷ ("user", metadata o.role false)
    ∷ []

unfoldable pub build_access_point_settings : Std → AccessPointOptions → Result (Settings × String)
build_access_point_settings std o = elim (check_access_point std o) [
  | some e ↦ err e
  | none ↦ elim (parse_address std o.address) [
    | err e ↦ err e
    | ok address ↦ elim (resolve_uuid std o.uuid) [
      | err e ↦ err e
      | ok uuid ↦ ok (access_point_settings o address uuid, uuid)
    ]
  ]
]
