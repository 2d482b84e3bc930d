-- ===== src/WebUi/Guard/Tests.antt =====
-- Tests of the checks of internal/webui/api.go: the payload of a secured network.
use onboardd.Prelude.{String, true, false, none, eq_iff, refl, ◌≡◌, ◌↔◌, arith}
use onboardd.Prelude.Int.{pos}
use onboardd.GoError.{ok}
use onboardd.SetupFlow.Types.{ConnectionRequest}
use onboardd.NetworkManager.Settings.{
  Std, InfrastructureOptions, check_infrastructure, valid_priority,
}
use onboardd.WebUi.Guard.{validate_connection_payload, valid_psk}
use onboardd.WebUi.Guard.Laws.{options_for, validate_connection_payload_iff}

abbrev plain : Std
plain = record {
  is_hex = λ text. true;
  replace_all = λ text old new. text;
  to_lower = λ text. text;
  random_uuid = ok "7d3a0b9e-1c2d-4e5f-8a6b-0c1d2e3f4a5b";
  parse_cidr = λ cidr. none;
}

abbrev unnamed : String
unnamed = ""

abbrev profile : InfrastructureOptions
profile = record {
  id = unnamed;
  uuid = unnamed;
  interface = "wlan0";
  ssid = unnamed;
  password = unnamed;
  is_open = true;
  hidden = false;
  autoconnect = true;
  priority = pos 10;
  pending = true;
}

abbrev home : ConnectionRequest
home = record { ssid = "home"; password = "password"; is_open = false; hidden = true }

accepts_home : validate_connection_payload plain home ≡ none
unfolding validate_connection_payload valid_psk
accepts_home = refl

validate_connection_payload_iff_example :
    (validate_connection_payload plain home ≡ none)
    ↔ (check_infrastructure plain (options_for profile home) ≡ none)
unfolding valid_priority
validate_connection_payload_iff_example =
    validate_connection_payload_iff plain profile home (ground (arith, eq_iff "wlan0" "")) refl
