-- ===== src/SetupFlow/Backend/Change/Tests.antt =====
-- Tests of internal/setupflow/network.go: a change from the setup network to standalone mode.
use onboardd.Prelude.{String, true, false, Option, none, some, []}
use onboardd.Prelude.Int.{pos}
use onboardd.GoError.{ok}
use onboardd.Connectivity.{Requirement}
use onboardd.NetworkManager.Types.{Role, Status}
use onboardd.NetworkManager.Settings.{Std}
use onboardd.Recovery.Addr.{Addr, v4}
use onboardd.Recovery.Fixtures.{fresh_run}
use onboardd.Captive.Manager.{Manager, Answers}
use onboardd.SetupFlow.Slot.{Action}
use onboardd.SetupFlow.Backend.{NetworkOptions}
use onboardd.SetupFlow.Backend.Change.{NetworkClient, Session}

abbrev fixed : Std
fixed = record {
  is_hex = λ text. true;
  replace_all = λ text old new. text;
  to_lower = λ text. text;
  random_uuid = ok "7d3a0b9e-1c2d-4e5f-8a6b-0c1d2e3f4a5b";
  parse_cidr = λ cidr. some ("10.42.0.1", 24);
}

abbrev no_networks : NetworkClient Status
no_networks = record {
  profiles = λ w. (ok [], w);
  scan = λ interface wait w. (ok [], w);
  delete_owned_infrastructure_profile = λ interface uuid w. (none, w);
}

abbrev policy : NetworkOptions
policy = record {
  interface = "wlan0";
  requirement = Requirement.local;
  scan_wait = pos 0;
  activation_wait = pos 30000000000;
  rollback_after = pos 60000000000;
  restoration_wait = pos 20000000000;
  standalone_enabled = true;
  standalone = record {
    id = "";
    uuid = "";
    interface = "wlan0";
    ssid = "hotspot";
    password = "password";
    address = "10.43.0.1/24";
    role = Role.standalone;
    autoconnect = false;
    priority = pos 0;
    band = "";
  };
}

abbrev portal : Manager
portal = record { session = true; redirect_needs_remove = true; active = true; events = [] }

abbrev clean : Answers
clean = record {
  first_remove = none;
  first_stop = none;
  session = true;
  start = none;
  install = none;
  remove = none;
  stop = none;
  sweep = none;
}

abbrev to_standalone : Action
to_standalone = Action.standalone

abbrev in_setup : Session Status
in_setup = record { run = fresh_run; manager = some portal }

abbrev any_prefix : String → Option Addr
any_prefix text = some (v4 170524673)
