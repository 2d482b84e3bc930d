-- ===== src/SetupFlow/Backend/Change.antt =====
-- The methods of internal/setupflow/network.go that change the network. Reads of NetworkManager
-- change its world and are not logged; the calls of a transition are.
pub mod Laws
mod Tests
use Prim.Native.String.{◌++◌, find, len}
use onboardd.Prelude.{
  ℕ, String, Bool, true, false, not, ◌||◌, Option, none, some, List, [], ◌∷◌, leb, ◌==◌, string_eq,
  if◌then◌else◌,
}
use onboardd.Prelude.Int.{ℤ, pos}
use onboardd.GoError.{
  Error, new, wrap, join, terminal, canceled, deadline_exceeded, public, Result, ok, err,
}
use onboardd.NetworkManager.Types.{Status, Profile, AccessPoint, Activation}
use onboardd.NetworkManager.Settings.{InfrastructureOptions, Std}
use onboardd.Recovery.Addr.{Netip, Addr}
use onboardd.Recovery.Client.{Client, Run}
use onboardd.Recovery.Attempts.{
  InfrastructureTransition, SavedInfrastructureTransition, StandaloneTransition, Outcome, returns,
  panics, attempt, attempt_saved, attempt_standalone,
}
use onboardd.Captive.Manager.{Manager, Answers, leave_provisioning}
use onboardd.SetupFlow.Types.{
  Mode, Network, KnownNetwork, ConnectionRequest, mode_unavailable_standalone,
  current_connection_unavailable, known_network_not_found,
}
use onboardd.SetupFlow.Slot.{Action}
use onboardd.SetupFlow.Backend.{
  NetworkOptions, mode_of, networks_of, known_networks_of, find_profile, forget_refusal,
  connect_refusal, previous_connection_of,
}

-- `err.Error()`. The texts that are left out of an `Error` are quoted values.
unfoldable pub error_text : Error → String
error_text (new text) = text
error_text (wrap text e) = text ++ (": " ++ error_text e)
error_text (join e f) = error_text e ++ ("\n" ++ error_text f)
error_text (terminal e) = error_text e
error_text canceled = "context canceled"
error_text deadline_exceeded = "context deadline exceeded"
error_text (public code message) = code

-- `strings.Contains`: `find` answers beyond the text if there is no occurrence.
abbrev pub text_contains : String → String → Bool
text_contains text part = leb (find text part) (len text)

abbrev pub restoration_failed : Error
restoration_failed =
    public "restoration_failed"
      "The previous connection could not be restored automatically. Restart the device to reopen setup."

abbrev pub connectivity_unavailable : Error
connectivity_unavailable =
    public "connectivity_unavailable"
      "The network connected, but it does not provide the access this device requires."

abbrev pub connection_failed : Error
connection_failed =
    public "connection_failed"
      "The device could not join that network. Check the network name and password, then try again."

abbrev pub cleanup_failed : Error
cleanup_failed =
    public "cleanup_failed"
      "The network changed, but setup could not finish cleaning up. Restart the device before trying again."

unfoldable pub public_transition_failure : Std → Error → Error
unfolding error_text
public_transition_failure std e =
    let message = std.to_lower (error_text e) in
    if text_contains message "rollback networkmanager checkpoint"
      || text_contains message "confirm previous connection restoration"
    then restoration_failed
    else if text_contains message "internet-not-confirmed" || text_contains message "connectivity"
    then connectivity_unavailable
    else connection_failed

-- The methods of `networkClient` that the transitions do not use.
pub record NetworkClient (W : Type 0) : Type 0 where
  pub profiles : W → Result (List Profile) × W
  pub scan : String → ℤ → W → Result (List AccessPoint) × W
  pub delete_owned_infrastructure_profile : String → String → W → Option Error × W

-- `manager` is the captive exit, if there is one.
pub record Session (W : Type 0) : Type 0 where
  pub run : Run W
  pub manager : Option Manager

abbrev pub exit_captive : Option Manager → Answers → Option Error × Option Manager
exit_captive none answers = (none, none)
exit_captive (some m) answers =
    let (m', e) = leave_provisioning m answers in
    (elim e [ none ↦ none | some e ↦ some cleanup_failed ], some m')

abbrev pub connect_transition :
    NetworkOptions → ConnectionRequest → String × Addr → InfrastructureTransition
connect_transition o request (uuid, address) = record {
  interface = o.interface;
  candidate = record {
    id = "";
    uuid = "";
    interface = "";
    ssid = request.ssid;
    password = request.password;
    is_open = request.is_open;
    hidden = request.hidden;
    autoconnect = false;
    priority = pos 0;
    pending = false;
  };
  requirement = o.requirement;
  activation_wait = o.activation_wait;
  rollback_after = o.rollback_after;
  restoration_wait = o.restoration_wait;
  previous_uuid = uuid;
  previous_address = address;
}

abbrev pub saved_transition :
    NetworkOptions → Profile → String × Addr → SavedInfrastructureTransition
saved_transition o p (uuid, address) = record {
  interface = o.interface;
  uuid = p.uuid;
  ssid = p.ssid;
  requirement = o.requirement;
  activation_wait = o.activation_wait;
  rollback_after = o.rollback_after;
  restoration_wait = o.restoration_wait;
  previous_uuid = uuid;
  previous_address = address;
}

abbrev pub standalone_transition : NetworkOptions → String × Addr → StandaloneTransition
standalone_transition o (uuid, address) = record {
  interface = o.interface;
  candidate = o.standalone;
  activation_wait = o.activation_wait;
  rollback_after = o.rollback_after;
  restoration_wait = o.restoration_wait;
  previous_uuid = uuid;
  previous_address = address;
}

module _ {W : Type 0} (client : Client W) (network : NetworkClient W) (netip : Netip) (std : Std)
    (parse_prefix : String → Option Addr) (polls : ℕ) (o : NetworkOptions) where
  abbrev pub at_world : Run W → W → Run W
  at_world r w = record r { world = w }

  unfoldable pub read_status : Run W → Result Status × Run W
  read_status r = let (s, w) = client.status o.interface r.world in (s, at_world r w)

  unfoldable pub read_profiles : Run W → Result (List Profile) × Run W
  read_profiles r = let (ps, w) = network.profiles r.world in (ps, at_world r w)

  -- The status, then the profiles, as `CurrentMode`, `KnownNetworks` and `knownProfile` read them.
  unfoldable pub read_both : Run W → Result (Status × List Profile) × Run W
  unfolding read_status read_profiles
  read_both r =
      let (s, r1) = read_status r in
      elim s [
        | err e ↦ (err e, r1)
        | ok s ↦
            let (ps, r2) = read_profiles r1 in
            elim ps [ err e ↦ (err e, r2) | ok ps ↦ (ok (s, ps), r2) ]
      ]

  unfoldable pub current_mode : Run W → Mode × Option Error × Run W
  current_mode r =
      let (both, r') = read_both r in
      elim both [ err e ↦ (Mode.unknown, some e, r') | ok (s, ps) ↦ (mode_of s ps, none, r') ]

  unfoldable pub networks : Run W → Result (List Network) × Run W
  networks r =
      let (found, w) = network.scan o.interface o.scan_wait r.world in
      elim found [
        | err e ↦ (err e, at_world r w)
        | ok found ↦ (ok (networks_of found), at_world r w)
      ]

  unfoldable pub known_networks : Run W → Result (List KnownNetwork) × Run W
  known_networks r =
      let (both, r') = read_both r in
      elim both [ err e ↦ (err e, r') | ok (s, ps) ↦ (ok (known_networks_of o.interface s ps), r') ]

  unfoldable pub known_profile : String → Run W → Result (Profile × Status) × Run W
  known_profile uuid r =
      let (both, r') = read_both r in
      elim both [
        | err e ↦ (err e, r')
        | ok (s, ps) ↦ elim (find_profile uuid ps) [
          | none ↦ (err known_network_not_found, r')
          | some p ↦ (ok (p, s), r')
        ]
      ]

  unfoldable pub forget_known_network : String → Run W → Option Error × Run W
  forget_known_network uuid r =
      let (found, r') = known_profile uuid r in
      elim found [
        | err e ↦ (some e, r')
        | ok (p, s) ↦ elim (forget_refusal o.interface s p) [
          | some e ↦ (some e, r')
          | none ↦
              let (e, w) = network.delete_owned_infrastructure_profile o.interface uuid r'.world in
              (e, at_world r' w)
        ]
      ]

  unfoldable pub previous_connection : Run W → Result (String × Addr) × Run W
  previous_connection r =
      let (s, r') = read_status r in
      elim s [
        | err e ↦ (err current_connection_unavailable, r')
        | ok s ↦ (previous_connection_of netip s, r')
      ]

  -- What each of the three changes does with the result of its transition.
  unfoldable pub conclude :
      Answers → Option Manager → Result Activation × Run W → Option Error × Session W
  conclude answers manager (err e, r) =
      (some (public_transition_failure std e), record { run = r; manager = manager })
  conclude answers manager (ok a, r) =
      let (e, manager') = exit_captive manager answers in
      (e, record { run = r; manager = manager' })

  abbrev pub refuse : Option Manager → Error → Run W → Option Error × Session W
  refuse manager e r = (some e, record { run = r; manager = manager })

  abbrev pub connect_after :
      Answers
      → ConnectionRequest
      → Option Manager
      → Result (String × Addr) × Run W
      → Option Error × Session W
  connect_after answers request manager (err e, r) = refuse manager e r
  connect_after answers request manager (ok previous, r) =
      conclude answers manager
        (attempt client netip std parse_prefix polls (connect_transition o request previous) r)

  unfoldable pub connect : Answers → ConnectionRequest → Session W → Option Error × Session W
  connect answers request t = connect_after answers request t.manager (previous_connection t.run)

  -- `ConnectKnownNetwork`, last part first.
  abbrev pub join_known :
      Answers → Option Manager → Profile → Run W → Result (String × Addr) → Option Error × Session W
  join_known answers manager p r (err e) = refuse manager e r
  join_known answers manager p r (ok previous) =
      conclude answers manager
        (attempt_saved client netip std parse_prefix polls (saved_transition o p previous) r)

  abbrev pub connect_found :
      Answers → Option Manager → Result (Profile × Status) × Run W → Option Error × Session W
  connect_found answers manager (err e, r) = refuse manager e r
  connect_found answers manager (ok (p, s), r) = elim (connect_refusal o.interface s p) [
    | some e ↦ refuse manager e r
    | none ↦ join_known answers manager p r (previous_connection_of netip s)
  ]

  unfoldable pub connect_known_network : Answers → String → Session W → Option Error × Session W
  connect_known_network answers uuid t = connect_found answers t.manager (known_profile uuid t.run)

  abbrev pub conclude_outcome :
      Answers
      → Option Manager
      → Outcome (Result Activation × Run W)
      → Outcome (Option Error × Session W)
  conclude_outcome answers manager panics = panics
  conclude_outcome answers manager (returns x) = returns (conclude answers manager x)

  abbrev pub standalone_after :
      Answers → Option Manager → Result (String × Addr) × Run W → Outcome (Option Error × Session W)
  standalone_after answers manager (err e, r) = returns (refuse manager e r)
  standalone_after answers manager (ok previous, r) =
      conclude_outcome answers manager (
        attempt_standalone client netip std parse_prefix polls (standalone_transition o previous) r)

  unfoldable pub standalone : Answers → Session W → Outcome (Option Error × Session W)
  standalone answers t =
      if not o.standalone_enabled
      then returns (refuse t.manager mode_unavailable_standalone t.run)
      else standalone_after answers t.manager (previous_connection t.run)

  -- The closures that the start methods of internal/setupflow/service.go queue.
  unfoldable pub perform : Answers → Action → Session W → Outcome (Option Error × Session W)
  perform answers (Action.connect request) t = returns (connect answers request t)
  perform answers (Action.connect_known uuid) t = returns (connect_known_network answers uuid t)
  perform answers Action.standalone t = standalone answers t
