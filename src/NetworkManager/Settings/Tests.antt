-- ===== src/NetworkManager/Settings/Tests.antt =====
-- Tests of internal/networkmanager/settings.go.
use onboardd.Prelude.{String, true, false, some, refl, ◌≡◌}
use onboardd.Prelude.Int.{pos, negsuc}
use onboardd.GoError.{ok}
use onboardd.NetworkManager.Types.{Role}
use onboardd.NetworkManager.Settings.{
  InfrastructureOptions, AccessPointOptions, Std, valid_ssid, valid_psk, valid_priority,
  resolve_uuid, parse_address, check_infrastructure, infrastructure_settings,
  build_infrastructure_settings, check_access_point, access_point_settings,
  build_access_point_settings,
}

abbrev random : String
random = "7d3a0b9e-1c2d-4e5f-8a6b-0c1d2e3f4a5b"

-- Every text is hexadecimal, and every CIDR is the setup network.
abbrev fixed : Std
fixed = record {
  is_hex = λ text. true;
  replace_all = λ text old new. text;
  to_lower = λ text. text;
  random_uuid = ok random;
  parse_cidr = λ cidr. some ("10.42.0.1", 24);
}

abbrev no_text : String
no_text = ""

abbrev home : InfrastructureOptions
home = record {
  id = no_text;
  uuid = no_text;
  interface = "wlan0";
  ssid = "home";
  password = "password";
  is_open = false;
  hidden = false;
  autoconnect = false;
  priority = pos 10;
  pending = true;
}

abbrev hotspot : AccessPointOptions
hotspot = record {
  id = no_text;
  uuid = no_text;
  interface = "wlan0";
  ssid = "setup";
  password = "password";
  address = no_text;
  role = Role.provisioning;
  autoconnect = false;
  priority = negsuc 0;
  band = "bg";
}

home_is_built :
    build_infrastructure_settings fixed home ≡ ok (infrastructure_settings home random, random)
unfolding build_infrastructure_settings check_infrastructure valid_ssid valid_psk valid_priority
    resolve_uuid
home_is_built = refl

hotspot_is_built :
    build_access_point_settings fixed hotspot
    ≡ ok (access_point_settings hotspot ("10.42.0.1", 24) random, random)
unfolding build_access_point_settings check_access_point valid_ssid valid_psk valid_priority
    resolve_uuid parse_address
hotspot_is_built = refl
