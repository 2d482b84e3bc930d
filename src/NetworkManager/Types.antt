-- ===== src/NetworkManager/Types.antt =====
-- internal/networkmanager/types.go, and `accessPointSecurity` of wifi.go. The uint32 enumerations
-- are numbers, as in the source.
pub mod Laws
mod Tests
use onboardd.Prelude.{
  ℕ, ◌%◌, String, Bool, true, false, ◌&&◌, ◌||◌, List, [], ◌∷◌, Eq, nat_eq, ◌==◌, ◌!=◌, ℕ_eq,
  string_eq, if◌then◌else◌, ◌≡◌, ◌↔◌, arith,
}
use onboardd.Prelude.Int.{ℤ}
use onboardd.Connectivity
use onboardd.Connectivity.{Observation, InternetState}

-- `unset` is the role of a profile without one.
pub data Role : Type 0 where
  unset infrastructure provisioning standalone : Role

abbrev pub role_code : Role → ℕ
role_code unset = 0
role_code infrastructure = 1
role_code provisioning = 2
role_code standalone = 3

pub role_beq_iff : (a b : Role) → (nat_eq (role_code a) (role_code b) ≡ true) ↔ (a ≡ b)
role_beq_iff a b = ground arith

instance abbrev pub role_eq : Eq Role
role_eq = record { is_same = λ a b. nat_eq (role_code a) (role_code b); is_same_iff = role_beq_iff }

unfoldable pub internet_state : ℕ → InternetState
internet_state value =
    if value == 1
    then InternetState.none
    else if value == 2
    then InternetState.portal
    else if value == 3
    then InternetState.limited
    else if value == 4
    then InternetState.full
    else InternetState.unknown

abbrev pub device_state_disconnected : ℕ
device_state_disconnected = 30

abbrev pub device_state_prepare : ℕ
device_state_prepare = 40

abbrev pub device_state_config : ℕ
device_state_config = 50

abbrev pub device_state_need_auth : ℕ
device_state_need_auth = 60

abbrev pub device_state_ip_config : ℕ
device_state_ip_config = 70

abbrev pub device_state_ip_check : ℕ
device_state_ip_check = 80

abbrev pub device_state_secondaries : ℕ
device_state_secondaries = 90

abbrev pub device_state_activated : ℕ
device_state_activated = 100

abbrev pub device_state_failed : ℕ
device_state_failed = 120

pub record Device : Type 0 where
  pub managed : Bool
  pub state : ℕ
  pub active_connection : String
  pub active_uuid : String
  pub ipv4_addresses : List String

pub record Status : Type 0 where
  pub connectivity : ℕ
  pub device : Device

abbrev pub nonempty : List String → Bool
nonempty [] = false
nonempty (a ∷ l) = true

unfoldable pub observation : Status → Observation
unfolding internet_state
observation status = record {
  activated = status.device.state == device_state_activated;
  has_local_address = nonempty status.device.ipv4_addresses;
  internet = internet_state status.connectivity;
}

-- `type_name` is `Type`.
pub record Profile : Type 0 where
  pub path : String
  pub id : String
  pub uuid : String
  pub type_name : String
  pub interface : String
  pub ssid : String
  pub mode : String
  pub autoconnect : Bool
  pub priority : ℤ
  pub owned : Bool
  pub role : Role
  pub pending : Bool
  pub in_memory : Bool

unfoldable pub is_infrastructure_wifi : Profile → Bool
is_infrastructure_wifi p =
    p.type_name == "802-11-wireless" && (p.mode == "" || p.mode == "infrastructure")

unfoldable pub applies_to : Profile → String → Bool
applies_to p interface = p.interface == "" || p.interface == interface

pub data Security : Type 0 where
  open_network wep wpa wpa2 : Security

pub record AccessPoint : Type 0 where
  pub ssid : String
  pub strength : ℕ
  pub security : Security

-- `flags & 0x1 != 0` is the lowest bit.
unfoldable pub access_point_security : ℕ → ℕ → ℕ → Security
access_point_security flags wpa_flags rsn_flags =
    if rsn_flags != 0
    then wpa2
    else if wpa_flags != 0
    then wpa
    else if flags % 2 != 0
    then wep
    else open_network

pub record Activation : Type 0 where
  pub active_path : String
  pub uuid : String
