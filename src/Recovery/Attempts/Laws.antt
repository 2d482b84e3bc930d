-- ===== src/Recovery/Attempts/Laws.antt =====
-- What an attempt guarantees: refused options touch nothing, and the rest is a protected transition.
use onboardd.Prelude.{
  ℕ, String, true, false, Bool-cases, Option-cases, inl, inr, Option, none, List, [], ◌∷◌, All,
  ◌==◌, string_eq, eq_iff, refl, sym, ap, subst, ◌∙◌, ◌≡◌, ◌≢◌, ◌↔◌, ◌⊎◌, arith,
}
use onboardd.Prelude.Int.{ℤ, is_positive}
use onboardd.Connectivity.{validate}
use onboardd.NetworkManager.Settings.Laws.{is_ok}
use onboardd.GoError.{Error, Result, ok, err, Result-cases}
use onboardd.NetworkManager.Types.{Activation}
use onboardd.NetworkManager.Settings.{
  Std, build_infrastructure_settings, build_access_point_settings,
}
use onboardd.Recovery.Addr.{Netip, Addr, usable_ipv4}
use onboardd.Recovery.Client.{Client, Run, Call, deleted}
use onboardd.Recovery.Protocol.{broken, Terms, phase}
use onboardd.Recovery.Plan.{Plan}
use onboardd.Recovery.Transition.Outcome.{terms, Ended, run_transition-Ended}
use onboardd.Recovery.Attempts.{
  InfrastructureTransition, SavedInfrastructureTransition, StandaloneTransition, Check,
  whole_seconds, check_requirement, validate_transition_options, infrastructure_check,
  infrastructure_plan, saved_plan, infrastructure_candidate, standalone_candidate, standalone_plan,
  standalone_check, Outcome, returns, panics, attempt, attempt_saved, attempt_standalone,
}

-- What the options of a transition must satisfy: an interface is named, the waits are positive, the
-- rollback time is a positive whole number of seconds, and there is a previous connection to
-- restore, with a usable IPv4 address.
abbrev pub Restorable : String → ℤ → ℤ → ℤ → String → Addr → Type 0
Restorable interface activation rollback restoration previous address =
    (interface ≢ "")
    × (is_positive activation ≡ true)
    × (is_positive rollback ≡ true)
    × (whole_seconds rollback ≡ true)
    × (is_positive restoration ≡ true)
    × (previous ≢ "")
    × (usable_ipv4 address ≡ true)

pub validate_transition_options_iff :
    (c : Check)
    → (validate_transition_options c ≡ none) ↔ (
        (check_requirement c.requirement ≡ none)
        × Restorable c.interface_name c.activation_wait c.rollback_after c.restoration_wait
            c.previous_uuid c.previous_address)
unfolding validate_transition_options
validate_transition_options_iff c =
    ground (arith, eq_iff c.interface_name "", eq_iff c.previous_uuid "")

-- A call other than `DeleteOwnedProfile`.
abbrev pub NoRemoval : Call → Type 0
NoRemoval (deleted uuid e) = ⊥
NoRemoval _ = Unit

-- Under terms that forbid it, the protocol has no removal.
phase-NoRemoval :
    (t : Terms) (calls : List Call)
    → t.may_delete ≡ false
    → phase t calls ≢ broken
    → All NoRemoval calls
phase-NoRemoval t [] h ne = tt
phase-NoRemoval t (call ∷ calls) h ne = ground (arith, phase-NoRemoval t calls h)

module _ {W : Type 0} (client : Client W) (netip : Netip) (std : Std)
    (parse_prefix : String → Option Addr) (polls : ℕ) where
  -- The call is refused, and nothing has happened.
  abbrev pub Refused : Result Activation × Run W → Run W → Type 0
  Refused x r = (e : Error) × (x ≡ (err e, r))

  -- With options that do not fit the call is refused; with options that fit it is a whole protected
  -- transition.
  abbrev pub Attempted : Type 0 → Plan → Run W → Result Activation × Run W → Type 0
  Attempted fits plan r x = (¬ fits × Refused x r) ⊎ (fits × Ended client netip plan x)

  -- A network to join: the options of its transition fit, and its profile can be built.
  abbrev pub Joinable : InfrastructureTransition → Type 0
  Joinable o =
      (validate o.requirement ≡ none)
      × Restorable o.interface o.activation_wait o.rollback_after o.restoration_wait o.previous_uuid
          o.previous_address
      × (is_ok (build_infrastructure_settings std (infrastructure_candidate o)) ≡ true)

  -- An attempt to join a network refuses options that do not fit, or whose profile cannot be built,
  -- and then makes no call. Otherwise it follows the checkpoint protocol to its end, in which the
  -- candidate is the only profile that `DeleteOwnedProfile` may be called for.
  pub attempt-Attempted :
      (o : InfrastructureTransition) (r : Run W)
      → r.calls ≡ []
      → Attempted
          (Joinable o)
          (infrastructure_plan o)
          r
          (attempt client netip std parse_prefix polls o r)
  unfolding attempt infrastructure_check
  attempt-Attempted o r h =
      let c =
        infrastructure_check o.interface o.requirement o.activation_wait o.rollback_after
          o.restoration_wait o.previous_uuid o.previous_address in
      let fits = validate_transition_options_iff c in
      elim (Option-cases (validate_transition_options c)) [
        | inr (e, v) ↦
            rw (v, attempt)
              (inl ((λ (known, rest, b). ground (arith, fits.1 (known, rest), v)), (e, refl)))
        | inl v ↦
            elim (Result-cases (build_infrastructure_settings std (infrastructure_candidate o))) [
              | inr (e, q) ↦ rw (v, q, attempt) (inl ((λ joinable. ground arith), (_, refl)))
              | inl (built, q) ↦
                  rw (v, q, attempt)
                    (inr (
                      ((fits.0 v).0, (fits.0 v).1, refl),
                      run_transition-Ended client netip (infrastructure_plan o) polls r h,
                    ))
            ]
      ]

  -- A saved profile that is named, with options that fit.
  abbrev pub Rejoinable : SavedInfrastructureTransition → Type 0
  Rejoinable o =
      (o.uuid ≢ "")
      × (o.ssid ≢ "")
      × (validate o.requirement ≡ none)
      × Restorable o.interface o.activation_wait o.rollback_after o.restoration_wait o.previous_uuid
          o.previous_address

  Ended-ne-broken :
      (plan : Plan) (x : Result Activation × Run W)
      → Ended client netip plan x
      → phase (terms plan) x.1.calls ≢ broken
  Ended-ne-broken plan (ok a, r) h e = ground arith
  Ended-ne-broken plan (err e, r) h q = ground arith

  Attempted-NoRemoval :
      (fits : Type 0) (plan : Plan) (r : Run W) (x : Result Activation × Run W)
      → plan.remove_rejected ≡ false
      → r.calls ≡ []
      → Attempted fits plan r x
      → All NoRemoval x.1.calls
  Attempted-NoRemoval fits plan r x off h (inl (misfit, (e, q))) =
      subst (All NoRemoval) (sym (ap (λ (y : Result Activation × Run W). y.1.calls) q ∙ h)) tt
  Attempted-NoRemoval fits plan r x off h (inr (fit, ended)) =
      phase-NoRemoval (terms plan) x.1.calls off (Ended-ne-broken plan x ended)

  attempt_saved-Attempted :
      (o : SavedInfrastructureTransition) (r : Run W)
      → r.calls ≡ []
      → Attempted
          (Rejoinable o)
          (saved_plan o)
          r
          (attempt_saved client netip std parse_prefix polls o r)
  unfolding attempt_saved infrastructure_check
  attempt_saved-Attempted o r h =
      let c =
        infrastructure_check o.interface o.requirement o.activation_wait o.rollback_after
          o.restoration_wait o.previous_uuid o.previous_address in
      let fits = validate_transition_options_iff c in
      elim (Bool-cases (o.uuid == "")) [
        | inl e ↦
            rw (e, attempt_saved) (inl ((λ fit. ground (arith, fit, eq_iff o.uuid "")), (_, refl)))
        | inr named ↦ elim (Bool-cases (o.ssid == "")) [
          | inl e ↦
              rw (named, e, attempt_saved)
                (inl ((λ fit. ground (arith, fit, eq_iff o.ssid "")), (_, refl)))
          | inr given ↦ elim (Option-cases (validate_transition_options c)) [
            | inr (e, v) ↦
                rw (named, given, v, attempt_saved)
                  (inl (
                    (λ (uuid, ssid, known, rest). ground (arith, fits.1 (known, rest), v)),
                    (_, refl),
                  ))
            | inl v ↦
                rw (named, given, v, attempt_saved)
                  (inr (
                    (
                      (λ e. ground (arith, eq_iff o.uuid "", e)),
                      (λ e. ground (arith, eq_iff o.ssid "", e)),
                      (fits.0 v).0,
                      (fits.0 v).1,
                    ),
                    run_transition-Ended client netip (saved_plan o) polls r h,
                  ))
          ]
        ]
      ]

  -- An attempt to join a saved network refuses a profile that is not named and options that do not
  -- fit, and then makes no call. Otherwise it follows the checkpoint protocol to its end. In either
  -- case it never calls `DeleteOwnedProfile`, so its rollback removes no profile.
  pub attempt_saved-NoRemoval :
      (o : SavedInfrastructureTransition) (r : Run W)
      → r.calls ≡ []
      → let x = attempt_saved client netip std parse_prefix polls o r in
        Attempted (Rejoinable o) (saved_plan o) r x × All NoRemoval x.1.calls
  attempt_saved-NoRemoval o r h =
      let attempted = attempt_saved-Attempted o r h in
      (attempted, Attempted-NoRemoval (Rejoinable o) (saved_plan o) r _ refl h attempted)

  -- Standalone mode can be tried: the options of the transition fit, and its profile can be built.
  abbrev pub Hostable : StandaloneTransition → Type 0
  Hostable o =
      Restorable o.interface o.activation_wait o.rollback_after o.restoration_wait o.previous_uuid
        o.previous_address
      × (is_ok (build_access_point_settings std (standalone_candidate o)) ≡ true)

  -- An attempt at standalone mode that returns.
  abbrev pub Returns : StandaloneTransition → Run W → Outcome (Result Activation × Run W) → Type 0
  Returns o r (returns x) =
      (¬ Hostable o × Refused x r)
      ⊎ (Hostable o × ((address : Addr) × Ended client netip (standalone_plan o address) x))
  Returns o r panics = ⊥

  -- An attempt at standalone mode at an address that `netip.ParsePrefix` accepts does not panic. It
  -- refuses options that do not fit, or whose profile cannot be built, and then makes no call;
  -- otherwise it follows the checkpoint protocol to its end.
  pub attempt_standalone-Returns :
      (o : StandaloneTransition) (r : Run W)
      → parse_prefix o.candidate.address ≢ none
      → r.calls ≡ []
      → Returns o r (attempt_standalone client netip std parse_prefix polls o r)
  unfolding attempt_standalone standalone_check
  attempt_standalone-Returns o r parses h =
      let c = standalone_check client netip std parse_prefix polls o in
      let fits = validate_transition_options_iff c in
      elim (Option-cases (validate_transition_options c)) [
        | inr (e, v) ↦
            rw (v, attempt_standalone)
              (inl ((λ (rest, b). ground (arith, fits.1 (refl, rest), v)), (e, refl)))
        | inl v ↦ elim (Result-cases (build_access_point_settings std (standalone_candidate o))) [
          | inr (e, q) ↦ rw (v, q, attempt_standalone) (inl ((λ hostable. ground arith), (_, refl)))
          | inl (built, q) ↦ elim (Option-cases (parse_prefix o.candidate.address)) [
            | inl none_parsed ↦ absurd (parses none_parsed)
            | inr (address, p) ↦
                rw (v, q, p, attempt_standalone)
                  (inr (
                    ((fits.0 v).1, ap is_ok q),
                    (
                      address,
                      run_transition-Ended client netip (standalone_plan o address) polls r h,
                    ),
                  ))
          ]
        ]
      ]
