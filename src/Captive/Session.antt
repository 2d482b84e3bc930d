-- ===== src/Captive/Session.antt =====
-- internal/captive/provisioning.go: a session is one provisioning access point and the wildcard DNS
-- that belongs to it. NetworkManager is the client of Recovery/Client; the DNS file is a parameter,
-- and what it was asked is logged, the last call first.
pub mod Laws
mod Tests
use onboardd.Prelude.{
  ℕ, String, Bool, true, false, not, ◌&&◌, Option, none, some, List, [], ◌∷◌, any, ◌==◌, ◌!=◌, ℕ_eq,
  string_eq, if◌then◌else◌,
}
use onboardd.Prelude.Int.{ℤ, pos, is_positive}
use onboardd.GoError.{Error, new, wrap, Result, ok, err, join_some, wrap_some}
use onboardd.NetworkManager.Types.{Role, Status, Activation, device_state_activated}
use onboardd.NetworkManager.Settings.{AccessPointOptions, Std, build_access_point_settings}
use onboardd.Recovery.Addr.{Netip, Addr, addr_eq, usable_ipv4}
use onboardd.Recovery.Client.{
  Client, Run, start_access_point, wait_for_activation, status, finalize_transition,
  delete_owned_profile,
}
use onboardd.Recovery.Exec.{Exec, ◌>>=◌, ◌>>◌, try_call, try_read, check}

-- `netip.Prefix`, whose text is a parameter.
pub record Prefix : Type 0 where
  pub addr : Addr
  pub bits : ℕ
  pub is_valid : Bool

pub record ProvisioningOptions : Type 0 where
  pub interface : String
  pub ssid : String
  pub password : String
  pub address : Prefix
  pub band : String
  pub wait : ℤ

-- DNSConfigurer
pub record Dns (W : Type 0) : Type 0 where
  pub install : Addr → W → Option Error × W
  pub remove : W → Option Error × W

pub data DnsCall : Type 0 where
  installed : Addr → Option Error → DnsCall
  removed : Option Error → DnsCall

-- The calls made so far.
pub record Site (W : Type 0) : Type 0 where
  pub run : Run W
  pub dns : List DnsCall

pub record Session : Type 0 where
  pub activation : Activation
  pub profile_removed : Bool
  pub dns_removed : Bool

unfoldable pub validate_provisioning_options : ProvisioningOptions → Option Error
validate_provisioning_options o =
    if o.interface == ""
    then some (new "interface is required")
    else if o.ssid == ""
    then some (new "SSID is required")
    else if o.password == ""
    then some (new "password is required")
    else if not (o.address.is_valid && usable_ipv4 o.address.addr)
    then some (new "address must be a usable IPv4 prefix")
    else if not (is_positive o.wait)
    then some (new "activation wait must be positive")
    else none

abbrev parses_to : Addr → Result Addr → Bool
parses_to address (ok parsed) = parsed == address
parses_to address (err e) = false

unfoldable pub confirm_provisioning_address : Netip → Status → String → Addr → Option Error
confirm_provisioning_address netip s uuid address =
    if s.device.state != device_state_activated
    then some (new "device is not activated")
    else if s.device.active_uuid != uuid
    then some (new "another profile is active")
    else if any (λ candidate. parses_to address (netip.parse_addr candidate))
        s.device.ipv4_addresses
    then none
    else some (new "device does not have the expected address")

abbrev pub no_activation : Activation
no_activation = record { active_path = ""; uuid = "" }

abbrev pub access_point : (Prefix → String) → ProvisioningOptions → AccessPointOptions
access_point prefix_text o = record {
  id = "";
  uuid = "";
  interface = o.interface;
  ssid = o.ssid;
  password = o.password;
  address = prefix_text o.address;
  role = Role.provisioning;
  autoconnect = false;
  priority = pos 0;
  band = o.band;
}

module _ {W : Type 0} (client : Client W) (dns : Dns W) (netip : Netip) (std : Std)
    (prefix_text : Prefix → String) where
  unfoldable pub install_dns : Addr → Site W → Option Error × Site W
  install_dns address t =
      let (e, w) = dns.install address t.run.world in
      (e, record { run = record t.run { world = w }; dns = installed address e ∷ t.dns })

  unfoldable pub remove_dns : Site W → Option Error × Site W
  remove_dns t =
      let (e, w) = dns.remove t.run.world in
      (e, record { run = record t.run { world = w }; dns = removed e ∷ t.dns })

  abbrev pub failed : Option Error → Bool
  failed none = false
  failed (some e) = true

  -- The two halves of `Stop`.
  unfoldable pub stop_profile : Session → Site W → Option Error × Session × Site W
  stop_profile s t =
      if s.profile_removed
      then (none, s, t)
      else (let (e, r) = delete_owned_profile client s.activation.uuid t.run in
          (
            wrap_some "delete provisioning profile" e,
            record s { profile_removed = not (failed e) },
            record t { run = r },
          ))

  unfoldable pub stop_dns : Session → Site W → Option Error × Session × Site W
  stop_dns s t =
      if s.dns_removed
      then (none, s, t)
      else (let (e, t') = remove_dns t in
          (wrap_some "remove captive DNS" e, record s { dns_removed = not (failed e) }, t'))

  unfoldable pub stop : Session → Site W → Option Error × Session × Site W
  unfolding stop_profile stop_dns
  stop s t =
      let (e, s', t') = stop_profile s t in
      let (f, s'', t'') = stop_dns s' t' in (join_some e f, s'', t'')

  unfoldable pub start_failure : Session → Error → Site W → Option Session × Option Error × Site W
  start_failure s cause t =
      let (e, s', t') = stop s t in
      (if failed e then some s' else none, join_some (some cause) e, t')

  -- What follows a successful start of the access point.
  unfoldable pub confirm : ProvisioningOptions → Activation → Exec W (Unit {0})
  confirm o a = do
    try_call "wait for provisioning AP"
        (wait_for_activation client a.active_path o.interface o.wait)
    s ← try_read "confirm provisioning AP address" (status client o.interface)
    check (
        wrap_some "confirm provisioning AP address"
          (confirm_provisioning_address netip s a.uuid o.address.addr))
    try_call "finalize provisioning AP"
        (finalize_transition client o.interface Role.provisioning o.ssid a.uuid)

  -- The session as it stands after the start of the access point.
  abbrev pub session_of : Activation → Session
  session_of a =
      if a.uuid != ""
      then record { activation = a; profile_removed = false; dns_removed = false }
      else record { activation = no_activation; profile_removed = true; dns_removed = false }

  abbrev pub finish :
      Session → List DnsCall → Result (Unit {0}) × Run W → Option Session × Option Error × Site W
  finish s calls (ok done, r) = (some s, none, record { run = r; dns = calls })
  finish s calls (err cause, r) = start_failure s cause (record { run = r; dns = calls })

  abbrev pub after_access_point :
      ProvisioningOptions
      → List DnsCall
      → Activation × Option Error × Run W
      → Option Session × Option Error × Site W
  after_access_point o calls (a, none, r) = finish (session_of a) calls (confirm o a r)
  after_access_point o calls (a, some e, r) =
      finish (session_of a) calls (err (wrap "activate provisioning AP" e), r)

  abbrev pub after_install :
      ProvisioningOptions → Option Error × Site W → Option Session × Option Error × Site W
  after_install o (some e, t) = (none, some (wrap "prepare captive DNS" e), t)
  after_install o (none, t) =
      after_access_point o t.dns (start_access_point client (access_point prefix_text o) t.run)

  unfoldable pub start : ProvisioningOptions → Site W → Option Session × Option Error × Site W
  start o t = elim (validate_provisioning_options o) [
    | some e ↦ (none, some e, t)
    | none ↦ elim (build_access_point_settings std (access_point prefix_text o)) [
      | err e ↦ (none, some (wrap "validate provisioning AP" e), t)
      | ok built ↦ after_install o (install_dns o.address.addr t)
    ]
  ]

  unfoldable pub recover_startup : String → Site W → Option Error × Site W
  recover_startup interface t =
      if interface == ""
      then (some (new "interface is required"), t)
      else (let (e, r) = finalize_transition client interface Role.provisioning "" "" t.run in
          let (f, t') = remove_dns (record t { run = r }) in
          (
            join_some (wrap_some "remove stale provisioning profiles" e)
                (wrap_some "remove stale captive DNS" f),
            t',
          ))
