-- ===== src/SetupFlow/Backend/Options.antt =====
-- The options that `NewNetworkBackend` of internal/setupflow/network.go accepts, against what the
-- transitions of internal/recovery/transitions.go accept.
use onboardd.Prelude.{
  ℕ, ◌/◌, ◌^◌, String, Bool, true, false, Option-cases, Bool-cases, inl, inr, Option, none, some,
  List, [], ◌∷◌, ◌==◌, ℕ_eq, string_eq, eq_iff, refl, subst, ◌≡◌, ◌≢◌, ◌⊎◌, arith,
}
use onboardd.Prelude.Int.{is_positive}
use onboardd.GoError.{Error, Result, ok, err, ok-injective, Result-cases}
use onboardd.Connectivity.{validate}
use onboardd.NetworkManager.Types.{Status}
use onboardd.NetworkManager.Settings.{Settings, Std, build_access_point_settings}
use onboardd.Recovery.Addr.{Netip, Addr, v4, usable_ipv4}
use onboardd.Recovery.Client.{Client}
use onboardd.SetupFlow.Backend.Change.{standalone_transition}
use onboardd.Recovery.Attempts.{
  standalone_check, infrastructure_check, validate_transition_options, whole_seconds,
  standalone_candidate, check_requirement,
}
use onboardd.Recovery.Attempts.Laws.{validate_transition_options_iff}
use onboardd.SetupFlow.Backend.{
  NetworkOptions, new_network_backend, standalone_options, is_specified_v4, first_ipv4,
  previous_connection_of,
}

abbrev pub is_multicast : Addr → Bool
is_multicast (v4 a) = a / 2 ^ 28 == 14
is_multicast _ = false

specified_usable :
    (x : Result Addr) (a : Addr)
    → is_specified_v4 x ≡ some a
    → is_multicast a ≡ false
    → usable_ipv4 a ≡ true
unfolding usable_ipv4
specified_usable x a h m = ground arith

first_ipv4-usable :
    (netip : Netip) (values : List String) (a : Addr)
    → first_ipv4 netip values ≡ some a
    → is_multicast a ≡ false
    → usable_ipv4 a ≡ true
unfolding first_ipv4
first_ipv4-usable netip [] a h m = ground arith
first_ipv4-usable netip (value ∷ values) a h m =
    elim (Option-cases (is_specified_v4 (netip.parse_addr value))) [
      | inl none_here ↦ first_ipv4-usable netip values a (ground arith) m
      | inr (b, q) ↦ specified_usable (netip.parse_addr value) a (ground arith) m
    ]

previous_usable :
    (netip : Netip) (s : Status) (uuid : String) (a : Addr)
    → previous_connection_of netip s ≡ ok (uuid, a)
    → is_multicast a ≡ false
    → (uuid ≢ "") × (usable_ipv4 a ≡ true)
unfolding previous_connection_of
previous_usable netip s uuid a h m = (
  ground (arith, eq_iff s.device.active_uuid ""),
  first_ipv4-usable netip s.device.ipv4_addresses a (ground arith) m,
)

-- What the constructor has checked of the options that it keeps.
pub record Accepted (std : Std) (o : NetworkOptions) : Type 0 where
  pub named : o.interface ≢ ""
  pub known : check_requirement (some o.requirement) ≡ none
  pub activation : is_positive o.activation_wait ≡ true
  pub rollback : is_positive o.rollback_after ≡ true
  pub whole : whole_seconds o.rollback_after ≡ true
  pub restoration : is_positive o.restoration_wait ≡ true
  pub access_point :
      (o.standalone_enabled ≡ false)
      ⊎ ((built : Settings × String) × (build_access_point_settings std (standalone_options o)
            ≡ ok built)
          × (standalone_options o ≡ o.standalone))

-- The guards of the constructor that come before the access point.
abbrev Guards : NetworkOptions → Type 0
Guards o =
    (o.interface ≢ "")
    × (validate o.requirement ≡ none)
    × (is_positive o.activation_wait ≡ true)
    × (is_positive o.rollback_after ≡ true)
    × (whole_seconds o.rollback_after ≡ true)
    × (is_positive o.restoration_wait ≡ true)

passed-Guards :
    (std : Std) (o kept : NetworkOptions) → new_network_backend std o ≡ ok kept → Guards o
unfolding new_network_backend
passed-Guards std o kept h = ground (arith, eq_iff o.interface "")

kept_as_given :
    (std : Std) (o kept : NetworkOptions)
    → o.standalone_enabled ≡ false
    → new_network_backend std o ≡ ok kept
    → o ≡ kept
unfolding new_network_backend
kept_as_given std o kept off h = ok-injective (ground arith)

kept_built :
    (std : Std) (o kept : NetworkOptions) (built : Settings × String)
    → o.standalone_enabled ≡ true
    → build_access_point_settings std (standalone_options o) ≡ ok built
    → new_network_backend std o ≡ ok kept
    → record o { standalone = standalone_options o } ≡ kept
unfolding new_network_backend
kept_built std o kept built on b h = ok-injective (ground arith)

not_kept :
    (std : Std) (o kept : NetworkOptions) (e : Error)
    → o.standalone_enabled ≡ true
    → build_access_point_settings std (standalone_options o) ≡ err e
    → new_network_backend std o ≢ ok kept
unfolding new_network_backend
not_kept std o kept e on b h = ground arith

guarded-Accepted :
    (std : Std) (o : NetworkOptions)
    → Guards o
    → (o.standalone_enabled ≡ false)
      ⊎ ((built : Settings × String) × (build_access_point_settings std (standalone_options o)
            ≡ ok built)
          × (standalone_options o ≡ o.standalone))
    → Accepted std o
guarded-Accepted std o (a, b, c, d, e, f) access_point = record {
  named = a;
  known = b;
  activation = c;
  rollback = d;
  whole = e;
  restoration = f;
  access_point = access_point;
}

new_network_backend-Accepted :
    (std : Std) (o kept : NetworkOptions) → new_network_backend std o ≡ ok kept → Accepted std kept
new_network_backend-Accepted std o kept h =
    let guards = passed-Guards std o kept h in
    elim (Bool-cases o.standalone_enabled) [
      | inr off ↦
          subst (Accepted std) (kept_as_given std o kept off h)
            (guarded-Accepted std o guards (inl off))
      | inl on ↦ elim (Result-cases (build_access_point_settings std (standalone_options o))) [
        | inl (built, b) ↦ subst (Accepted std) (kept_built std o kept built on b h) (
            guarded-Accepted std (record o { standalone = standalone_options o }) guards
              (inr (built, b, refl)))
        | inr (e, b) ↦ absurd (not_kept std o kept e on b h)
      ]
    ]

-- The options that the backend is made with never let a change fail in the checks of its
-- transition: with the previous connection that was read, unless its address is multicast, the
-- checks of all three transitions pass, and if standalone mode is enabled, its access point can be
-- built.
pub options-Valid :
    {W : Type 0} (client : Client W) (std : Std) (netip : Netip)
    (parse_prefix : String → Option Addr) (polls : ℕ) (o kept : NetworkOptions) (s : Status)
    (uuid : String) (a : Addr)
    → new_network_backend std o ≡ ok kept
    → previous_connection_of netip s ≡ ok (uuid, a)
    → is_multicast a ≡ false
    → (validate_transition_options (
          infrastructure_check kept.interface kept.requirement kept.activation_wait
            kept.rollback_after kept.restoration_wait uuid a)
        ≡ none)
      × (validate_transition_options (
            standalone_check client netip std parse_prefix polls
              (standalone_transition kept (uuid, a)))
          ≡ none)
      × ((kept.standalone_enabled ≡ false)
          ⊎ ((built : Settings × String) × (build_access_point_settings std
                  (standalone_candidate (standalone_transition kept (uuid, a)))
                ≡ ok built)))
unfolding infrastructure_check standalone_check
options-Valid client std netip parse_prefix polls o kept s uuid a h p m =
    let x = new_network_backend-Accepted std o kept h in
    let (named, usable) = previous_usable netip s uuid a p m in
    (
      (validate_transition_options_iff _).1
          (x.known, (x.named, x.activation, x.rollback, x.whole, x.restoration, named, usable)),
      (validate_transition_options_iff _).1
          (refl, (x.named, x.activation, x.rollback, x.whole, x.restoration, named, usable)),
      elim x.access_point [ inl off ↦ inl off | inr (built, b, same) ↦ inr (built, b) ],
    )
