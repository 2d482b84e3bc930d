-- ===== src/Recovery/Fixtures.antt =====
-- A network, a plan and a run for the tests of internal/recovery/transitions.go.
use onboardd.Prelude.{ℕ, String, true, false, none, [], ◌∷◌}
use onboardd.Prelude.Int.{pos}
use onboardd.GoError.{ok}
use onboardd.Connectivity.{Requirement}
use onboardd.NetworkManager.Types.{Role, Status, Activation}
use onboardd.NetworkManager.Settings.{InfrastructureOptions}
use onboardd.Recovery.Addr.{Netip, v4}
use onboardd.Recovery.Client.{Client, Run}
use onboardd.Recovery.Plan.{Plan, connect, policy, infrastructure_messages}

-- A device whose active profile is `uuid`.
abbrev pub active : String → Status
active uuid = record {
  connectivity = 4;
  device = record {
    managed = true;
    state = 100;
    active_connection = "/active/1";
    active_uuid = uuid;
    ipv4_addresses = "10.42.0.1" ∷ [];
  };
}

abbrev pub candidate : Activation
candidate = record { active_path = "/active/2"; uuid = "new" }

-- The world is the status of the device; `checked` is the answer of a fresh check.
abbrev pub network : ℕ → Client Status
network checked = record {
  create_checkpoint = λ interface after w. (ok "/checkpoint/1", w);
  activate_profile =
      λ interface uuid w. (record { active_path = "/active/1"; uuid = uuid }, none, active uuid);
  wait_for_activation = λ path interface wait w. (none, w);
  status = λ interface w. (ok w, w);
  finalize_transition = λ interface role ssid uuid w. (none, w);
  commit_checkpoint = λ path w. (none, w);
  rollback_checkpoint = λ path w. (none, active "setup");
  delete_owned_profile = λ uuid w. (none, w);
  connect_infrastructure = λ options w. (candidate, none, active "new");
  start_access_point = λ options w. (candidate, none, active "new");
  check_connectivity = λ w. (ok checked, w);
}

abbrev pub one_address : Netip
one_address = record {
  parse_addr = λ text. ok (v4 170524673);
  address_text = λ address. "10.42.0.1";
}

abbrev pub options : InfrastructureOptions
options = record {
  id = "";
  priority = pos 0;
  uuid = "";
  interface = "wlan0";
  ssid = "home";
  password = "password";
  is_open = false;
  hidden = false;
  autoconnect = false;
  pending = true;
}

abbrev pub to_infrastructure : Plan
to_infrastructure = record {
  interface_name = "wlan0";
  role = Role.infrastructure;
  ssid = "home";
  activation_wait = pos 30;
  rollback_after = pos 60;
  restoration_wait = pos 20;
  previous_uuid = "setup";
  previous_address = v4 170524673;
  remove_rejected = true;
  messages = infrastructure_messages;
  candidate = connect options;
  acceptance = policy Requirement.internet;
}

abbrev pub fresh_run : Run Status
fresh_run = record { world = active "setup"; calls = [] }
