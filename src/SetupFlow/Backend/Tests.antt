-- ===== src/SetupFlow/Backend/Tests.antt =====
-- Tests of internal/setupflow/network.go: the lists and the options.
use mathlib.Core.List.{Memᴰ}
use onboardd.Prelude.{String, true, false, none, some, List, [], ◌∷◌, refl, ◌≡◌, ◌⊎◌}
use onboardd.Prelude.Int.{pos}
use onboardd.GoError.{ok}
use onboardd.Connectivity.{Requirement, validate}
use onboardd.NetworkManager.Types.{Role, Profile, is_infrastructure_wifi, applies_to}
use onboardd.NetworkManager.Settings.{Settings, Std, build_access_point_settings}
use onboardd.Recovery.Addr.{v4}
use onboardd.Recovery.Fixtures.{active, network, one_address}
use onboardd.Recovery.Attempts.{
  validate_transition_options, infrastructure_check, standalone_check, standalone_candidate,
}
use onboardd.SetupFlow.Types.{KnownNetwork}
use onboardd.SetupFlow.Backend.{
  NetworkOptions, new_network_backend, previous_connection_of, first_ipv4, is_listed, known_network,
  known_networks_of, find_profile,
}
use onboardd.SetupFlow.Backend.Known.{DistinctUuids, Backs, known-Backs}
use onboardd.SetupFlow.Backend.Options.{options-Valid}
use onboardd.SetupFlow.Backend.Change.{standalone_transition}

abbrev saved : String → Profile
saved uuid = record {
  path = "/settings/1";
  id = "home";
  uuid = uuid;
  type_name = "802-11-wireless";
  interface = "wlan0";
  ssid = "home";
  mode = "infrastructure";
  autoconnect = true;
  priority = pos 0;
  owned = true;
  role = Role.infrastructure;
  pending = false;
  in_memory = false;
}

abbrev wlan0 : String
wlan0 = "wlan0"

abbrev profiles : List Profile
profiles = saved "a" ∷ saved "b" ∷ []

-- "a" is active, so only "b" can be joined.
abbrev entry : KnownNetwork
entry = known_network wlan0 (active "a") (saved "b")

lists_both :
    known_networks_of wlan0 (active "a") profiles
    ≡ known_network wlan0 (active "a") (saved "a") ∷ entry ∷ []
unfolding known_networks_of is_listed is_infrastructure_wifi applies_to
lists_both = refl

listed : Memᴰ entry (known_networks_of wlan0 (active "a") profiles)
unfolding known_networks_of is_listed is_infrastructure_wifi applies_to
listed = Memᴰ.tail (Memᴰ.head refl)

distinct : DistinctUuids profiles
unfolding find_profile
distinct = (refl, (refl, tt))

known-Backs_example : (p : Profile) × Backs wlan0 (active "a") profiles entry p
known-Backs_example = known-Backs wlan0 (active "a") profiles entry distinct listed

-- Every text is hexadecimal, and every CIDR is the setup network.
abbrev fixed : Std
fixed = record {
  is_hex = λ text. true;
  replace_all = λ text old new. text;
  to_lower = λ text. text;
  random_uuid = ok "7d3a0b9e-1c2d-4e5f-8a6b-0c1d2e3f4a5b";
  parse_cidr = λ cidr. some ("10.42.0.1", 24);
}

abbrev policy : NetworkOptions
policy = record {
  interface = wlan0;
  requirement = Requirement.local;
  scan_wait = pos 0;
  activation_wait = pos 30000000000;
  rollback_after = pos 60000000000;
  restoration_wait = pos 20000000000;
  standalone_enabled = false;
  standalone = record {
    id = "";
    uuid = "";
    interface = "";
    ssid = "";
    password = "";
    address = "";
    role = Role.standalone;
    autoconnect = false;
    priority = pos 0;
    band = "";
  };
}

policy_kept : new_network_backend fixed policy ≡ ok policy
unfolding new_network_backend validate
policy_kept = refl

abbrev setup : String
setup = "setup"

setup_known : previous_connection_of one_address (active setup) ≡ ok (setup, v4 170524673)
unfolding previous_connection_of first_ipv4
setup_known = refl

options-Valid_example :
    (validate_transition_options (
        infrastructure_check wlan0 Requirement.local
          (pos 30000000000)
          (pos 60000000000)
          (pos 20000000000)
          setup
          (v4 170524673))
      ≡ none)
    × (validate_transition_options (
          standalone_check
            (network 2)
            one_address
            fixed
            (λ text. none)
            2
            (standalone_transition policy (setup, v4 170524673)))
        ≡ none)
    × ((policy.standalone_enabled ≡ false)
        ⊎ ((built : Settings × String) × (build_access_point_settings fixed
                (standalone_candidate (standalone_transition policy (setup, v4 170524673)))
              ≡ ok built)))
options-Valid_example =
    options-Valid (network 2) fixed one_address (λ text. none) 2 policy policy (active setup) setup
      (v4 170524673) policy_kept setup_known refl
