-- ===== src/AppConfig/Resolve/Tests.antt =====
-- Tests of `Resolve` of internal/appconfig/config.go: no file, and another interface.
use onboardd.Prelude.{String, true, none, some, refl, ◌≡◌}
use onboardd.GoError.{new, ok}
use onboardd.Connectivity
use onboardd.Recovery.Addr.{v4}
use onboardd.AppConfig.Types.{Overrides, defaults, apply_overrides}
use onboardd.AppConfig.Validate.{
  Texts, is_color, validate, validate_branding, validate_network, validate_modes,
  validate_standalone, validate_standalone_address, validate_portal, validate_handoff, check_url,
}
use onboardd.AppConfig.Resolve.{not_exist, load, resolve}

abbrev texts : Texts
texts = record {
  trim_space = λ text. text;
  parse_url = λ text. none;
  parse_prefix = λ text. some (record { addr = v4 170524673; bits = 24; is_valid = true });
}

abbrev other_interface : Overrides
other_interface = record {
  network_interface = some "wlan1";
  network_requirement = none;
  infrastructure_enabled = none;
  standalone_enabled = none;
  listener_port = none;
}

abbrev system_path : String
system_path = "/etc/onboardd/config.toml"

resolves :
    resolve texts system_path true (not_exist (new "no such file")) other_interface
    ≡ ok (apply_overrides defaults other_interface)
unfolding resolve load validate apply_overrides defaults validate_branding is_color validate_network
    Connectivity.validate validate_modes validate_standalone validate_standalone_address
    validate_portal validate_handoff check_url
resolves = refl
