-- ===== src/Captive/Session/Laws.antt =====
-- What a session of internal/captive/provisioning.go owns.
use onboardd.Prelude.{
  ℕ, zero, suc, String, Bool, true, false, not, Option-cases, inl, inr, Option, none, some, List,
  [], ◌∷◌, ◌==◌, string_eq, eq_iff, if◌then◌else◌, ◌≡◌, ◌≢◌, ◌⊎◌, arith,
}
use onboardd.GoError.{Error, wrap, Result, ok, err, Result-cases}
use onboardd.NetworkManager.Types.{Activation}
use onboardd.NetworkManager.Settings.{Std, build_access_point_settings}
use onboardd.Recovery.Addr.{Netip}
use onboardd.Recovery.Client.{
  Client, Run, Call, started, deleted, start_access_point, wait_for_activation, status,
  finalize_transition, delete_owned_profile,
}
use onboardd.Captive.Session.{
  Prefix, ProvisioningOptions, Dns, DnsCall, installed, removed, Site, Session, access_point,
  session_of, install_dns, remove_dns, failed, stop_profile, stop_dns, stop, start_failure, confirm,
  finish, after_access_point, after_install, start, validate_provisioning_options,
}

-- The profile that the calls have added and not deleted: each started access point that names a
-- profile has added it.
abbrev pub profile_left : List Call → String
profile_left [] = ""
profile_left (started options a e ∷ calls) = if a.uuid == "" then profile_left calls else a.uuid
profile_left (deleted uuid none ∷ calls) =
    if uuid == profile_left calls then "" else profile_left calls
profile_left (call ∷ calls) = profile_left calls

-- Whether wildcard DNS is installed and not removed.
abbrev pub dns_left : List DnsCall → Bool
dns_left [] = false
dns_left (installed address none ∷ calls) = true
dns_left (removed none ∷ calls) = false
dns_left (call ∷ calls) = dns_left calls

-- Nothing is left of any session.
abbrev pub Clean : {W : Type 0} → Site W → Type 0
Clean t = (profile_left t.run.calls ≡ "") × (dns_left t.dns ≡ false)

-- What is left is what the session knows that it has still to remove.
abbrev pub Owns : {W : Type 0} → Session → Site W → Type 0
Owns s t =
    (profile_left t.run.calls ≡ (if s.profile_removed then "" else s.activation.uuid))
    × (dns_left t.dns ≡ not s.dns_removed)

module _ {W : Type 0} (client : Client W) (dns : Dns W) (netip : Netip) (std : Std)
    (prefix_text : Prefix → String) where
  -- `Stop` removes what it can and remembers the rest: afterwards too the session owns what is left,
  -- and if it answers no error, nothing is left.
  abbrev pub Stopped : Option Error × Session × Site W → Type 0
  Stopped (e, s, t) = Owns s t × ((e ≢ none) ⊎ Clean t)

  stop-Stopped :
      (s : Session) (t : Site W) → Owns s t → Stopped (stop client dns netip std prefix_text s t)
  unfolding stop stop_profile stop_dns remove_dns delete_owned_profile
  stop-Stopped s t h = ground (arith, eq_iff s.activation.uuid s.activation.uuid)

  -- `Start` answers a session that owns what is left, or an error with nothing left.
  abbrev pub Started : Option Session × Option Error × Site W → Type 0
  Started (none, e, t) = (e ≢ none) × Clean t
  Started (some s, e, t) = Owns s t

  failure-Started :
      (s : Session) (cause : Error) (t : Site W)
      → Owns s t
      → Started (start_failure client dns netip std prefix_text s cause t)
  unfolding start_failure
  failure-Started s cause t h = ground (arith, stop-Stopped s t h)

  confirm-left :
      (o : ProvisioningOptions) (a : Activation) (r : Run W)
      → profile_left (confirm client dns netip std prefix_text o a r).1.calls ≡ profile_left r.calls
  unfolding confirm wait_for_activation status finalize_transition
  confirm-left o a r = ground arith

  finish-Started :
      (s : Session) (calls : List DnsCall) (x : Result (Unit {0}) × Run W)
      → Owns s (record { run = x.1; dns = calls })
      → Started (finish client dns netip std prefix_text s calls x)
  finish-Started s calls (ok done, r) h = h
  finish-Started s calls (err e, r) h = failure-Started s e (record { run = r; dns = calls }) h

  -- The access point was started where no profile was left, behind DNS.
  after_access_point-Started :
      (o : ProvisioningOptions) (calls : List DnsCall) (x : Activation × Option Error × Run W)
      → profile_left x.2.calls ≡ x.0.uuid
      → dns_left calls ≡ true
      → Started (after_access_point client dns netip std prefix_text o calls x)
  after_access_point-Started o calls (a, none, r) h d =
      finish-Started (session_of client dns netip std prefix_text a) calls
        (confirm client dns netip std prefix_text o a r)
        (ground (arith, confirm-left o a r, eq_iff a.uuid ""))
  after_access_point-Started o calls (a, some e, r) h d =
      finish-Started (session_of client dns netip std prefix_text a) calls
        (err (wrap "activate provisioning AP" e), r) (ground (arith, eq_iff a.uuid ""))

  started_left :
      (o : ProvisioningOptions) (r : Run W)
      → profile_left r.calls ≡ ""
      → let (a, e, r') = start_access_point client (access_point prefix_text o) r in
        profile_left r'.calls ≡ a.uuid
  unfolding start_access_point
  started_left o r h =
      ground
        (arith, eq_iff (client.start_access_point (access_point prefix_text o) r.world).0.uuid "")

  after_install-Started :
      (o : ProvisioningOptions) (x : Option Error × Site W)
      → profile_left x.1.run.calls ≡ ""
      → (dns_left x.1.dns ≡ not (failed client dns netip std prefix_text x.0))
      → Started (after_install client dns netip std prefix_text o x)
  after_install-Started o (some e, t) h d = (ground arith, (h, d))
  after_install-Started o (none, t) h d =
      after_access_point-Started o t.dns _ (started_left o t.run h) d

  -- A start where nothing is left of an earlier session answers a session that owns whatever it has
  -- left behind, also when it failed and could not clean up, or no session, an error and nothing
  -- left. An access point that is started without an answered profile is taken to have added none.
  pub start-Started :
      (o : ProvisioningOptions) (t : Site W)
      → Clean t
      → Started (start client dns netip std prefix_text o t)
  unfolding start install_dns
  start-Started o t clean = elim (Option-cases (validate_provisioning_options o)) [
    | inr (e, q) ↦ rw (q, start) (ground arith, clean)
    | inl valid ↦
        elim (Result-cases (build_access_point_settings std (access_point prefix_text o))) [
          | inr (e, q) ↦ rw (valid, q, start) (ground arith, clean)
          | inl (built, q) ↦
              rw (valid, q, start)
                (after_install-Started o
                  (install_dns client dns netip std prefix_text o.address.addr t) (ground arith)
                  (ground arith))
        ]
  ]

  -- Any number of further stops.
  abbrev pub stop_again : ℕ → Session → Site W → Session × Site W
  stop_again zero s t = (s, t)
  stop_again (suc n) s t =
      let (e, s', t') = stop client dns netip std prefix_text s t in stop_again n s' t'

  stop_again-Owns :
      (n : ℕ) (s : Session) (t : Site W) → Owns s t → let (s', t') = stop_again n s t in Owns s' t'
  stop_again-Owns zero s t h = h
  stop_again-Owns (suc n) s t h =
      let (e, s', t') = stop client dns netip std prefix_text s t in
      stop_again-Owns n s' t' ((stop-Stopped s t h).0)

  -- Once a session owns what is left, it does so after any number of stops, whatever fails in them;
  -- and when a stop answers no error, nothing is left.
  pub stop-Clean :
      (n : ℕ) (s : Session) (t : Site W)
      → Owns s t
      → let (s', t') = stop_again n s t in
        Owns s' t' × Stopped (stop client dns netip std prefix_text s' t')
  stop-Clean n s t h = let owns = stop_again-Owns n s t h in (owns, stop-Stopped _ _ owns)
