-- ===== src/NetworkManager/Settings/Laws.antt =====
-- What a profile says that onboardd builds, and which options it refuses.
use Prim.Native.String.{len}
use onboardd.Prelude.{
  ℕ, ◌≤◌, String, Bool, true, false, subst, inl, inr, Option, none, some, [], ◌∷◌, string_eq,
  eq_iff, if◌then◌else◌, refl, ◌≡◌, ◌≢◌, ◌↔◌, ◌⊎◌, arith,
}
use onboardd.GoError.{Error, Result, ok, err, Result-cases}
use onboardd.NetworkManager.Types.{Role, role_eq}
use onboardd.NetworkManager.Reader.{lookup, get}
use onboardd.NetworkManager.Settings.{
  InfrastructureOptions, AccessPointOptions, Variant, text, flag, bytes, addresses, strings,
  role_text, Settings, Std, valid_ssid, valid_psk, valid_priority, resolve_uuid, metadata,
  check_infrastructure, infrastructure_settings, build_infrastructure_settings, check_access_point,
  access_point_settings, build_access_point_settings, parse_address,
}

abbrev pub is_ok {ℓ} : {A : Type ℓ} → Result A → Bool
is_ok (ok a) = true
is_ok (err e) = false

-- A UUID for the profile can be had: a given one is canonical, or a random one can be made.
abbrev pub has_uuid : Std → String → Bool
has_uuid std uuid = is_ok (resolve_uuid std uuid)

-- An infrastructure profile is built exactly if it names an interface, the SSID has 1 to 32 bytes,
-- an open network has no password and a secured one a valid one, the priority is in range, and a
-- UUID can be had.
build_infrastructure_settings_iff :
    (std : Std) (o : InfrastructureOptions)
    → (is_ok (build_infrastructure_settings std o) ≡ true) ↔ (
        (o.interface ≢ "")
        × (len o.ssid ≢ 0)
        × (len o.ssid ≤ 32)
        × (((o.is_open ≡ true) × (o.password ≡ ""))
            ⊎ ((o.is_open ≡ false) × (valid_psk std o.password ≡ true)))
        × (valid_priority o.priority ≡ true)
        × (has_uuid std o.uuid ≡ true))
unfolding build_infrastructure_settings check_infrastructure valid_ssid
build_infrastructure_settings_iff std o =
    ground (arith, eq_iff o.interface "", eq_iff o.password "")

-- The metadata under `user`.
abbrev in_strings : String → Option Variant → Option String
in_strings key (some (strings entries)) = lookup key entries
in_strings key _ = none

abbrev pub mark : Settings → String → Option String
mark settings key = in_strings key (get settings "user" "data")

-- What an infrastructure profile says: the network and the interface that were asked for, a
-- password exactly if the network is secured, its owner and role, and the mark of a profile on
-- trial exactly if it is one.
pub record Says (o : InfrastructureOptions) (settings : Settings) (uuid : String) : Type 0 where
  pub same_uuid : get settings "connection" "uuid" ≡ some (text uuid)
  pub same_interface : get settings "connection" "interface-name" ≡ some (text o.interface)
  pub same_autoconnect : get settings "connection" "autoconnect" ≡ some (flag o.autoconnect)
  pub same_ssid : get settings "802-11-wireless" "ssid" ≡ some (bytes o.ssid)
  pub secret :
      get settings "802-11-wireless-security" "psk"
      ≡ (if o.is_open then none else some (text o.password))
  pub owner : mark settings "onboardd.owner" ≡ some "onboardd"
  pub role : mark settings "onboardd.role" ≡ some "infrastructure"
  pub pending : mark settings "onboardd.pending" ≡ (if o.pending then some "true" else none)

settings-Says :
    (o : InfrastructureOptions) (uuid : String) → Says o (infrastructure_settings o uuid) uuid
unfolding infrastructure_settings metadata
settings-Says o uuid = record {
  same_uuid = ground arith;
  same_interface = ground arith;
  same_autoconnect = ground arith;
  same_ssid = ground arith;
  secret = ground arith;
  owner = ground arith;
  role = ground arith;
  pending = ground arith;
}

build_infrastructure_settings-eq :
    (std : Std) (o : InfrastructureOptions) (settings : Settings) (uuid : String)
    → build_infrastructure_settings std o ≡ ok (settings, uuid)
    → infrastructure_settings o uuid ≡ settings
unfolding build_infrastructure_settings
build_infrastructure_settings-eq std o settings uuid h = ground arith

-- Whenever an infrastructure profile is built, it says what the options ask for, under the UUID
-- that is returned.
pub build_infrastructure_settings-Says :
    (std : Std) (o : InfrastructureOptions) (settings : Settings) (uuid : String)
    → build_infrastructure_settings std o ≡ ok (settings, uuid)
    → Says o settings uuid
build_infrastructure_settings-Says std o settings uuid h =
    subst (λ s. Says o s uuid) (build_infrastructure_settings-eq std o settings uuid h)
      (settings-Says o uuid)

-- An access point says which network it offers, with which password and address, and its role; and
-- it never carries the mark of a profile on trial.
pub record Offers (o : AccessPointOptions) (settings : Settings) (address : String × ℕ)
    (uuid : String) : Type 0 where
  pub same_uuid : get settings "connection" "uuid" ≡ some (text uuid)
  pub same_interface : get settings "connection" "interface-name" ≡ some (text o.interface)
  pub same_ssid : get settings "802-11-wireless" "ssid" ≡ some (bytes o.ssid)
  pub secret : get settings "802-11-wireless-security" "psk" ≡ some (text o.password)
  pub same_address : get settings "ipv4" "address-data" ≡ some (addresses (address ∷ []))
  pub role : mark settings "onboardd.role" ≡ some (role_text o.role)
  pub pending : mark settings "onboardd.pending" ≡ none

offered-Offers :
    (o : AccessPointOptions) (address : String × ℕ) (uuid : String)
    → Offers o (access_point_settings o address uuid) address uuid
unfolding access_point_settings metadata
offered-Offers o address uuid = record {
  same_uuid = refl;
  same_interface = refl;
  same_ssid = ground arith;
  secret = refl;
  same_address = refl;
  role = refl;
  pending = refl;
}

module _ (std : Std) (o : AccessPointOptions) (settings : Settings) (uuid : String) where
  build_access_point_settings-role :
      build_access_point_settings std o ≡ ok (settings, uuid)
      → (o.role ≡ Role.provisioning) ⊎ (o.role ≡ Role.standalone)
  unfolding build_access_point_settings check_access_point
  build_access_point_settings-role h = ground arith

  build_access_point_settings-eq :
      (address : String × ℕ)
      → parse_address std o.address ≡ ok address
      → build_access_point_settings std o ≡ ok (settings, uuid)
      → access_point_settings o address uuid ≡ settings
  unfolding build_access_point_settings
  build_access_point_settings-eq address parsed h = ground arith

  build_access_point_settings_refused :
      (e : Error)
      → parse_address std o.address ≡ err e
      → build_access_point_settings std o ≢ ok (settings, uuid)
  unfolding build_access_point_settings
  build_access_point_settings_refused e refused h = ground arith

-- Whenever an access point is built, its role is provisioning or standalone, its address is an IPv4
-- CIDR, and the profile offers what the options ask for, under the UUID that is returned.
pub build_access_point_settings-Offers :
    (std : Std) (o : AccessPointOptions) (settings : Settings) (uuid : String)
    → build_access_point_settings std o ≡ ok (settings, uuid)
    → ((o.role ≡ Role.provisioning) ⊎ (o.role ≡ Role.standalone))
      × ((address : String × ℕ) × (parse_address std o.address ≡ ok address)
          × Offers o settings address uuid)
build_access_point_settings-Offers std o settings uuid h =
    elim (Result-cases (parse_address std o.address)) [
      | inl (address, parsed) ↦ (
        build_access_point_settings-role std o settings uuid h,
        (
          address,
          parsed,
          subst (λ s. Offers o s address uuid)
              (build_access_point_settings-eq std o settings uuid address parsed h)
              (offered-Offers o address uuid),
        ),
      )
      | inr (e, refused) ↦
          absurd (build_access_point_settings_refused std o settings uuid e refused h)
    ]
