-- ===== src/Recovery/Attempts/Tests.antt =====
-- Tests of the attempts of internal/recovery/transitions.go.
use onboardd.Prelude.{
  String, true, false, Option, none, some, All, refl, string_eq, ◌≡◌, ◌≢◌, arith,
}
use onboardd.Prelude.Int.{pos}
use onboardd.GoError.{ok}
use onboardd.Connectivity.{Requirement}
use onboardd.NetworkManager.Types.{Role}
use onboardd.NetworkManager.Settings.{
  Std, valid_ssid, valid_psk, valid_priority, resolve_uuid, parse_address, check_access_point,
  build_access_point_settings,
}
use onboardd.Recovery.Addr.{Addr, v4, usable_ipv4}
use onboardd.Recovery.Fixtures.{network, one_address, options, fresh_run}
use onboardd.Recovery.Attempts.{
  InfrastructureTransition, SavedInfrastructureTransition, StandaloneTransition, Check,
  validate_transition_options, infrastructure_check, infrastructure_plan, saved_plan,
  standalone_check, panics, attempt, attempt_saved, attempt_standalone,
}
use onboardd.Recovery.Attempts.Laws.{
  Attempted, Joinable, Rejoinable, Returns, NoRemoval, attempt-Attempted, attempt_saved-NoRemoval,
  attempt_standalone-Returns,
}

-- Every text is hexadecimal, and every CIDR is the setup network.
abbrev fixed : Std
fixed = record {
  is_hex = λ text. true;
  replace_all = λ text old new. text;
  to_lower = λ text. text;
  random_uuid = ok "7d3a0b9e-1c2d-4e5f-8a6b-0c1d2e3f4a5b";
  parse_cidr = λ cidr. some ("10.42.0.1", 24);
}

abbrev join_home : InfrastructureTransition
join_home = record {
  interface = "wlan0";
  candidate = options;
  requirement = Requirement.internet;
  activation_wait = pos 30000000000;
  rollback_after = pos 60000000000;
  restoration_wait = pos 20000000000;
  previous_uuid = "setup";
  previous_address = v4 170524673;
}

abbrev join_saved : SavedInfrastructureTransition
join_saved = record {
  interface = "wlan0";
  uuid = "saved";
  ssid = "home";
  requirement = Requirement.internet;
  activation_wait = pos 30000000000;
  rollback_after = pos 60000000000;
  restoration_wait = pos 20000000000;
  previous_uuid = "setup";
  previous_address = v4 170524673;
}

abbrev hotspot_at : String → StandaloneTransition
hotspot_at address = record {
  interface = "wlan0";
  candidate = record {
    id = "";
    uuid = "";
    interface = "wlan0";
    ssid = "hotspot";
    password = "password";
    address = address;
    role = Role.standalone;
    autoconnect = false;
    priority = pos 0;
    band = "";
  };
  activation_wait = pos 30000000000;
  rollback_after = pos 60000000000;
  restoration_wait = pos 20000000000;
  previous_uuid = "setup";
  previous_address = v4 170524673;
}

abbrev no_address : String
no_address = ""

abbrev hotspot_address : String
hotspot_address = "10.43.0.1/24"

-- Options without an address are accepted, and the address is then parsed although it is empty.
empty_address_panics :
    attempt_standalone
      (network 2)
      one_address
      fixed
      (λ text. none)
      2
      (hotspot_at no_address)
      fresh_run
    ≡ panics
unfolding attempt_standalone standalone_check validate_transition_options usable_ipv4
    build_access_point_settings check_access_point valid_ssid valid_psk valid_priority resolve_uuid
    parse_address
empty_address_panics = refl

abbrev accepted : Check
accepted =
    infrastructure_check "wlan0" Requirement.internet (pos 1) (pos 1000000000) (pos 1) "setup"
      (v4 170524673)

attempt-Attempted_example :
    Attempted
      (network 2)
      one_address
      fixed
      (λ text. none)
      2
      (Joinable (network 2) one_address fixed (λ text. none) 2 join_home)
      (infrastructure_plan join_home)
      fresh_run
      (attempt (network 2) one_address fixed (λ text. none) 2 join_home fresh_run)
attempt-Attempted_example =
    attempt-Attempted (network 2) one_address fixed (λ text. none) 2 join_home fresh_run refl

attempt_saved-NoRemoval_example :
    let x = attempt_saved (network 2) one_address fixed (λ text. none) 2 join_saved fresh_run in
    Attempted
      (network 2)
      one_address
      fixed
      (λ text. none)
      2
      (Rejoinable (network 2) one_address fixed (λ text. none) 2 join_saved)
      (saved_plan join_saved)
      fresh_run
      x
    × All NoRemoval x.1.calls
attempt_saved-NoRemoval_example =
    attempt_saved-NoRemoval (network 2) one_address fixed (λ text. none) 2 join_saved fresh_run refl

abbrev one_prefix : String → Option Addr
one_prefix text = some (v4 170524673)

one_prefix_parses : one_prefix hotspot_address ≢ none
one_prefix_parses e = ground arith

attempt_standalone-Returns_example :
    Returns (network 2) one_address fixed one_prefix 2 (hotspot_at hotspot_address) fresh_run (
      attempt_standalone
        (network 2)
        one_address
        fixed
        one_prefix
        2
        (hotspot_at hotspot_address)
        fresh_run)
attempt_standalone-Returns_example =
    attempt_standalone-Returns (network 2) one_address fixed one_prefix 2
      (hotspot_at hotspot_address) fresh_run one_prefix_parses refl
