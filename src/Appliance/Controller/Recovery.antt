-- ===== src/Appliance/Controller/Recovery.antt =====
-- Manual recovery through the controller.
use onboardd.Prelude.{
  ℕ, suc, Bool, true, false, Option-cases, inl, inr, List, [], ◌∷◌, All, Option, none, some, refl,
  ◌≡◌, ◌≢◌, ◌⊎◌, ◌∙◌, arith,
}
use onboardd.GoError.{Error, ok, Result-cases}
use onboardd.Recovery.Requests.{Requests, complete, receive}
use onboardd.Appliance.Types.{Stage, State, Transition, stage_eq}
use onboardd.Appliance.Controller.{
  Action, no_action, enter_provisioning, leave_provisioning, action_beq_iff, action_eq, Event,
  called, network_state, Controller, Input, transition, notified, source_error, action_for, observe,
  apply, apply_recovery, take_action, take_transition, take_notification, after_close, round, step,
  run_from, start,
}

-- How often temporary provisioning was left, or an attempt was made.
abbrev pub leaves : List Event → ℕ
leaves [] = 0
leaves (called leave_provisioning r ∷ es) = suc (leaves es)
leaves (called _ r ∷ es) = leaves es
leaves (_ ∷ es) = leaves es

abbrev pub NotProvisioning : Input → Type 0
NotProvisioning (transition t _ _) = t.current.stage ≢ Stage.provisioning
NotProvisioning _ = Unit

-- Recovery has entered provisioning, and the engine has not yet reported it.
pub record Held (c : Controller) : Type 0 where
  pub awaiting : c.awaiting_provisioning ≡ true
  pub entered : c.current ≡ enter_provisioning

-- What a round does while the setup network is held.
abbrev Keeps : Controller → Controller → Type 0
Keeps c c' = Held c' × (leaves c'.events ≡ leaves c.events)

module _ (observer : Bool) where
  take_action-Held :
      (c : Controller) (next : Action) (answer : Option Error) (cancelled : Bool)
      → next ≢ enter_provisioning
      → Held c
      → Keeps c (take_action observer c next answer cancelled)
  unfolding take_action
  take_action-Held c no_action answer cancelled ne held = ground arith
  take_action-Held c enter_provisioning answer cancelled ne held = absurd (ne refl)
  take_action-Held c leave_provisioning answer cancelled ne held = ground arith

  action_for-ne-enter :
      (s : State) (next : Action)
      → s.stage ≢ Stage.provisioning
      → action_for s ≡ ok next
      → next ≢ enter_provisioning
  unfolding action_for
  action_for-ne-enter s next stage e = ground arith

  take_transition-Held :
      (c : Controller) (t : Transition) (answer : Option Error) (cancelled : Bool)
      → t.current.stage ≢ Stage.provisioning
      → Held c
      → Keeps c (take_transition observer c t answer cancelled)
  unfolding take_transition
  take_transition-Held c t answer cancelled stage held =
      elim (Result-cases (action_for t.current)) [
        | inl (next, e) ↦
            let c' = observe observer c (network_state t) in
            rw e (
              ground (
                arith,
                take_action-Held c' next answer cancelled
                    (action_for-ne-enter t.current next stage e) (ground arith),
              ))
        | inr (e, q) ↦ rw q (ground arith)
      ]

  round-Held :
      (c : Controller) (input : Input)
      → NotProvisioning input
      → Held c
      → Keeps c (round observer c input)
  unfolding round take_notification apply_recovery after_close
  round-Held c (transition t answer cancelled) stage held =
      ground (arith, take_transition-Held c t answer cancelled stage held)
  round-Held c (source_error none) stage held = (held, refl)
  round-Held c _ stage held = ground arith

  step-Held :
      (c : Controller) (input : Input)
      → NotProvisioning input
      → Held c
      → Keeps c (step observer c input)
  unfolding step
  step-Held c input stage held = elim (Option-cases c.returned) [
    | inl live ↦ rw (live, step) (round-Held c input stage held)
    | inr (e, over) ↦ rw (over, step) (held, refl)
  ]

  -- Once a recovery has entered provisioning, nothing leaves it before the engine itself has
  -- reported the provisioning stage: reports of infrastructure or standalone mode that were made
  -- before are ignored, however many there are.
  pub run_from-Held :
      (c : Controller) (inputs : List Input)
      → Held c
      → All NotProvisioning inputs
      → Held (run_from observer c inputs)
        × (leaves (run_from observer c inputs).events ≡ leaves c.events)
  unfolding run_from
  run_from-Held c [] held _ = (held, refl)
  run_from-Held c (input ∷ inputs) held (stage, later) =
      let (held', same) = step-Held c input stage held in
      let (held'', same') = run_from-Held (step observer c input) inputs held' later in
      (held'', same' ∙ same)

  -- A notified request that is still pending is served: it is acknowledged exactly if the setup
  -- network is entered, or was already. If the call fails it stays pending, and the controller
  -- returns, with the error unless it is being stopped.
  pub notified-served :
      (c : Controller) (answer : Option Error) (cancelled : Bool)
      → c.returned ≡ none
      → c.requests.notify ≡ true
      → c.requests.pending ≡ true
      → let c' = step observer c (notified answer cancelled) in
        ((c'.requests.pending ≡ false) × (c'.current ≡ enter_provisioning) × (c'.returned ≡ none))
        ⊎ ((c'.requests.pending ≡ true)
            × (c'.returned ≢ none)
            × (answer ≢ none)
            × (c.current ≢ enter_provisioning))
  unfolding step round take_notification apply_recovery apply receive complete
  notified-served c none cancelled live full pending =
      ground (arith, action_beq_iff c.current enter_provisioning)
  notified-served c (some e) cancelled live full pending =
      ground (arith, action_beq_iff c.current enter_provisioning)

  -- A request that was left pending by a controller that gave up is served by the next one before
  -- its loop: it enters provisioning and acknowledges the request, or returns the error with the
  -- request still pending.
  pub start-served :
      (requests : Requests) (answer : Option Error)
      → requests.pending ≡ true
      → let c = start observer requests answer in
        ((answer ≡ none) × Held c × (c.requests.pending ≡ false) × (c.returned ≡ none))
        ⊎ ((answer ≢ none)
            × (c.requests.pending ≡ true)
            × (c.returned ≢ none)
            × (c.returned ≢ some none))
  unfolding start apply_recovery apply complete
  start-served requests none pending = ground arith
  start-served requests (some e) pending = ground arith
