-- ===== src/Appliance/Observer/Tests.antt =====
-- Tests of `NetworkManagerObserver.Snapshot` of internal/appliance/engine.go.
use onboardd.Prelude.Int.{pos}
use onboardd.Prelude.{String, true, false, List, [], ◌∷◌, string_eq, eq_iff, refl, ◌≡◌, ◌≢◌, arith}
use onboardd.GoError.{ok}
use onboardd.NetworkManager.Types.{Role, Profile, Status}
use onboardd.Appliance.Observer.{snapshot_of, observe}

abbrev profile : String → Role → Profile
profile uuid role = record {
  path = uuid;
  id = uuid;
  uuid = uuid;
  type_name = "802-11-wireless";
  interface = "wlan0";
  ssid = "net";
  mode = "infrastructure";
  autoconnect = true;
  owned = true;
  role = role;
  pending = false;
  priority = pos 0;
  in_memory = false;
}

abbrev status : Status
status = record {
  connectivity = 4;
  device = record {
    managed = true;
    state = 100;
    active_connection = "/a";
    active_uuid = "home";
    ipv4_addresses = [];
  };
}

abbrev profiles : List Profile
profiles = profile "setup" Role.provisioning ∷ profile "home" Role.infrastructure ∷ []

observed : observe (ok status) (ok profiles) "wlan0" ≡ ok (snapshot_of status profiles "wlan0")
unfolding observe
observed = refl

abbrev home_uuid : String
home_uuid = "home"

different : home_uuid ≢ "setup"
different e = ground (arith, eq_iff "home" "setup")
