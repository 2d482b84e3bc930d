-- ===== src/Captive/Session/Tests.antt =====
-- Tests of internal/captive/provisioning.go: the device does not take the address, and the DNS file
-- cannot be removed at once.
use onboardd.Prelude.{String, true, false, none, some, [], ◌∷◌, refl}
use onboardd.Prelude.Int.{pos}
use onboardd.GoError.{new, ok}
use onboardd.NetworkManager.Types.{Status}
use onboardd.NetworkManager.Settings.{Std}
use onboardd.Recovery.Addr.{v4}
use onboardd.Recovery.Fixtures.{network, one_address, fresh_run}
use onboardd.Captive.Session.{
  Prefix, ProvisioningOptions, Dns, installed, Site, Session, start, stop,
}
use onboardd.Captive.Session.Laws.{Owns, Started, Stopped, stop_again, start-Started, stop-Clean}

abbrev fixed : Std
fixed = record {
  is_hex = λ text. true;
  replace_all = λ text old new. text;
  to_lower = λ text. text;
  random_uuid = ok "7d3a0b9e-1c2d-4e5f-8a6b-0c1d2e3f4a5b";
  parse_cidr = λ cidr. some ("10.42.0.1", 24);
}

abbrev stuck_dns : Dns Status
stuck_dns = record { install = λ address w. (none, w); remove = λ w. (some (new "read-only"), w) }

abbrev setup_text : Prefix → String
setup_text prefix = "10.42.0.1/24"

abbrev options : ProvisioningOptions
options = record {
  interface = "wlan0";
  ssid = "setup";
  password = "password";
  address = record { addr = v4 170524674; bits = 24; is_valid = true };
  band = "bg";
  wait = pos 30;
}

abbrev site : Site Status
site = record { run = fresh_run; dns = [] }

start-Started_example :
    Started
      (network 2)
      stuck_dns
      one_address
      fixed
      setup_text
      (start (network 2) stuck_dns one_address fixed setup_text options site)
start-Started_example =
    start-Started (network 2) stuck_dns one_address fixed setup_text options site (refl, refl)

abbrev half_stopped : Session
half_stopped = record {
  activation = record { active_path = "/active/2"; uuid = "new" };
  profile_removed = true;
  dns_removed = false;
}

abbrev still_dns : Site Status
still_dns = record { run = fresh_run; dns = installed (v4 170524674) none ∷ [] }

stop-Clean_example :
    let (s, t) =
      stop_again (network 2) stuck_dns one_address fixed setup_text 1 half_stopped still_dns in
    Owns s t
    × Stopped
        (network 2)
        stuck_dns
        one_address
        fixed
        setup_text
        (stop (network 2) stuck_dns one_address fixed setup_text s t)
stop-Clean_example =
    stop-Clean (network 2) stuck_dns one_address fixed setup_text 1 half_stopped still_dns
      (refl, refl)
