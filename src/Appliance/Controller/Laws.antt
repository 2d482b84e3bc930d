-- ===== src/Appliance/Controller/Laws.antt =====
-- The calls that the controller makes, over every run.
use onboardd.Prelude.{
  Bool, true, false, Option-cases, if_intro, inl, inr, List, [], ◌∷◌, Option, none, some, ◌≡◌, ◌≢◌,
  ◌↔◌, ◌==◌, arith,
}
use onboardd.GoError.{Error, err, Result-cases, is_terminal}
use onboardd.Recovery.Requests.{Requests, complete, receive}
use onboardd.Appliance.Types.{Stage, Reason, State, Transition, stage_eq, reason_beq_iff}
use onboardd.Appliance.Controller.{
  Action, no_action, enter_provisioning, leave_provisioning, action_beq_iff, action_eq, Event,
  called, network_state, recovery_requested, provisioning_action, Controller, initial, Input, done,
  transition, notified, source_error, action_for, observe, return_error, apply, apply_recovery,
  take_action, take_transition, take_notification, after_close, round, step, run_from, start, run,
}

-- The action that was carried out last.
abbrev pub last_success : List Event → Action
last_success [] = no_action
last_success (called a none ∷ es) = a
last_success (called a (some e) ∷ es) = last_success es
last_success (network_state t ∷ es) = last_success es
last_success (recovery_requested ∷ es) = last_success es
last_success (provisioning_action a b ∷ es) = last_success es

-- Every call asks for another action than the one carried out last.
abbrev pub Alternates : List Event → Type 0
Alternates [] = Unit
Alternates (called a r ∷ es) = (a ≢ last_success es) × Alternates es
Alternates (network_state t ∷ es) = Alternates es
Alternates (recovery_requested ∷ es) = Alternates es
Alternates (provisioning_action a b ∷ es) = Alternates es

pub record Inv (c : Controller) : Type 0 where
  pub alternates : Alternates c.events
  pub in_step : c.returned ≡ none → c.current ≡ last_success c.events
  pub held : c.awaiting_provisioning ≡ true → c.current ≡ enter_provisioning

-- The controller gives up for good on every state that it cannot act on, but for a failed
-- observation of the network, which may be retried.
pub action_for-terminal :
    (s : State) (e : Error)
    → action_for s ≡ err e
    → (is_terminal e ≡ false) ↔ ((s.stage ≡ Stage.failed) × (s.reason ≡ Reason.observation_failed))
unfolding action_for is_terminal
action_for-terminal s e h = ground (arith, reason_beq_iff s.reason Reason.observation_failed)

module _ (observer : Bool) where
  apply_recovery-Inv :
      (c : Controller) (answer : Option Error) (cancelled : Bool)
      → c.returned ≡ none
      → Inv c
      → let (c', e) = apply_recovery observer c answer in Inv (return_error observer c' e cancelled)
  unfolding apply_recovery apply complete
  apply_recovery-Inv c none cancelled live inv =
      ground (arith, inv.in_step live, action_beq_iff c.current enter_provisioning)
  apply_recovery-Inv c (some e) cancelled live inv =
      ground (arith, inv.in_step live, action_beq_iff c.current enter_provisioning)

  take_action-Inv :
      (c : Controller) (next : Action) (answer : Option Error) (cancelled : Bool)
      → c.returned ≡ none
      → Inv c
      → Inv (take_action observer c next answer cancelled)
  unfolding take_action apply
  take_action-Inv c no_action answer cancelled live inv = ground (arith, inv.in_step live)
  take_action-Inv c enter_provisioning answer cancelled live inv =
      ground (arith, inv.in_step live, action_beq_iff enter_provisioning c.current)
  take_action-Inv c leave_provisioning answer cancelled live inv =
      ground (arith, inv.in_step live, action_beq_iff leave_provisioning c.current)

  observe-Inv :
      (c : Controller) (t : Transition) → Inv c → Inv (observe observer c (network_state t))
  observe-Inv c t inv = ground arith

  take_transition-Inv :
      (c : Controller) (t : Transition) (answer : Option Error) (cancelled : Bool)
      → c.returned ≡ none
      → Inv c
      → Inv (take_transition observer c t answer cancelled)
  unfolding take_transition
  take_transition-Inv c t answer cancelled live inv =
      let c' = observe observer c (network_state t) in
      let inv' = observe-Inv c t inv in
      if_intro Inv (t.current.stage == Stage.stopped) (λ _. ground (arith, inv'))
        (λ _. elim (Result-cases (action_for t.current)) [
          | inl (next, e) ↦ rw e (take_action-Inv c' next answer cancelled (ground arith) inv')
          | inr (e, q) ↦ rw q (ground (arith, inv'))
        ])

  take_notification-Inv :
      (c : Controller) (answer : Option Error) (cancelled : Bool)
      → c.returned ≡ none
      → Inv c
      → Inv (take_notification observer c answer cancelled)
  unfolding take_notification
  take_notification-Inv c answer cancelled live inv =
      let c' : Controller = record c { requests = receive c.requests } in
      let inv' : Inv (observe observer c' recovery_requested) = ground arith in
      if_intro Inv c'.requests.pending
        (λ _.
          apply_recovery-Inv (observe observer c' recovery_requested) answer cancelled
            (ground arith) inv')
        (λ _. ground arith)

  round-Inv :
      (c : Controller) (input : Input) → c.returned ≡ none → Inv c → Inv (round observer c input)
  unfolding round after_close
  round-Inv c done live inv = ground arith
  round-Inv c (transition t answer cancelled) live inv =
      if_intro Inv c.transitions (λ _. take_transition-Inv c t answer cancelled live inv) (λ _. inv)
  round-Inv c (notified answer cancelled) live inv =
      if_intro Inv c.requests.notify (λ _. take_notification-Inv c answer cancelled live inv)
        (λ _. inv)
  round-Inv c (source_error none) live inv = inv
  round-Inv c _ live inv = ground arith

  step-Inv : (c : Controller) (input : Input) → Inv c → Inv (step observer c input)
  unfolding step
  step-Inv c input inv = elim (Option-cases c.returned) [
    | inl live ↦ rw (live, step) (round-Inv c input live inv)
    | inr (e, over) ↦ rw (over, step) inv
  ]

  run_from-Inv : (c : Controller) (inputs : List Input) → Inv c → Inv (run_from observer c inputs)
  unfolding run_from
  run_from-Inv c [] inv = inv
  run_from-Inv c (input ∷ inputs) inv =
      run_from-Inv (step observer c input) inputs (step-Inv c input inv)

  start-Inv : (requests : Requests) (answer : Option Error) → Inv (start observer requests answer)
  unfolding start
  start-Inv requests answer =
      let c = observe observer (initial requests) recovery_requested in
      let inv : Inv c = ground arith in
      if_intro Inv requests.pending (λ _. apply_recovery-Inv c answer false (ground arith) inv)
        (λ _. ground arith)

  -- Whatever the engine reports, whoever asks for recovery and however the calls end, the
  -- controller never enters provisioning while the last successful call entered it, and never
  -- leaves it while the last successful call left it.
  pub run-Alternates :
      (requests : Requests) (answer : Option Error) (inputs : List Input)
      → Alternates (run observer requests answer inputs).events
  unfolding run
  run-Alternates requests answer inputs =
      (run_from-Inv (start observer requests answer) inputs (start-Inv requests answer)).alternates
