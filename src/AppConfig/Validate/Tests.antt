-- ===== src/AppConfig/Validate/Tests.antt =====
-- Tests of the checks of internal/appconfig/config.go, on the default configuration.
use onboardd.Prelude.{true, false, none, some, refl, ◌≡◌, ◌≢◌}
use onboardd.Prelude.Int.{pos}
use onboardd.GoError.{ok}
use onboardd.Connectivity
use onboardd.NetworkManager.Types.{Role}
use onboardd.NetworkManager.Settings.{Std}
use onboardd.Recovery.Addr.{v4}
use onboardd.Recovery.Fixtures.{network, one_address, fresh_run}
use onboardd.Recovery.Attempts.{StandaloneTransition, panics, attempt_standalone}
use onboardd.AppConfig.Types.{defaults}
use onboardd.AppConfig.Validate.{
  Texts, is_color, validate, validate_branding, validate_network, validate_modes,
  validate_standalone, validate_standalone_address, validate_portal, validate_handoff, check_url,
}
use onboardd.AppConfig.Validate.Laws.{Usable, prefix_addr, validate-Usable}

-- Every prefix is that of the setup network.
abbrev texts : Texts
texts = record {
  trim_space = λ text. text;
  parse_url = λ text. none;
  parse_prefix = λ text. some (record { addr = v4 170524673; bits = 24; is_valid = true });
}

defaults_are_valid : validate texts defaults ≡ none
unfolding validate defaults validate_branding is_color validate_network Connectivity.validate
    validate_modes validate_standalone validate_standalone_address validate_portal validate_handoff
    check_url
defaults_are_valid = refl

color_is_not_long : is_color "#cd24551" ≡ false
unfolding is_color
color_is_not_long = refl

offers_standalone : defaults.network.standalone_enabled ≡ true
unfolding defaults
offers_standalone = refl

abbrev fixed : Std
fixed = record {
  is_hex = λ text. true;
  replace_all = λ text old new. text;
  to_lower = λ text. text;
  random_uuid = ok "7d3a0b9e-1c2d-4e5f-8a6b-0c1d2e3f4a5b";
  parse_cidr = λ cidr. some ("10.42.0.1", 24);
}

abbrev hotspot : StandaloneTransition
hotspot = record {
  interface = "wlan0";
  candidate = record {
    id = "";
    uuid = "";
    interface = "wlan0";
    ssid = "hotspot";
    password = "password";
    address = defaults.network.standalone.address;
    role = Role.standalone;
    autoconnect = false;
    priority = pos 0;
    band = "";
  };
  activation_wait = pos 30000000000;
  rollback_after = pos 60000000000;
  restoration_wait = pos 20000000000;
  previous_uuid = "setup";
  previous_address = v4 170524673;
}

validate-Usable_example :
    Usable texts hotspot.candidate.address
    × (attempt_standalone (network 2) one_address fixed (prefix_addr texts) 2 hotspot fresh_run
        ≢ panics)
validate-Usable_example =
    validate-Usable (network 2) one_address fixed texts 2 defaults hotspot fresh_run
      defaults_are_valid offers_standalone refl
