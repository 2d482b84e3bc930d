-- ===== src/Appliance/Controller.antt =====
-- `Controller.Run` of internal/appliance/controller.go: the loop that enters and leaves temporary
-- provisioning. What it calls is logged, the last call first; the answer of a call, and
-- `runContext.Err() != nil` where the code asks for it, come with the input of the round.
pub mod Laws
mod Recovery
mod Tests
use Prim.Native.String.{◌++◌}
use onboardd.Prelude.{
  ℕ, String, Bool, true, false, ◌&&◌, ◌||◌, Option, none, some, List, [], ◌∷◌, Eq, nat_eq, ◌==◌,
  string_eq, if◌then◌else◌, ◌≡◌, ◌↔◌, arith,
}
use onboardd.GoError.{Error, new, wrap, wrap_some, terminal, Result, ok, err}
use onboardd.Recovery.Requests.{Requests, request, complete, receive}
use onboardd.Appliance.Types.{Stage, Reason, State, Transition, stage_eq, reason_eq, reason_text}

pub data Action : Type 0 where
  no_action enter_provisioning leave_provisioning : Action

abbrev pub action_code : Action → ℕ
action_code no_action = 0
action_code enter_provisioning = 1
action_code leave_provisioning = 2

pub action_beq_iff : (a b : Action) → (nat_eq (action_code a) (action_code b) ≡ true) ↔ (a ≡ b)
action_beq_iff a b = ground arith

instance abbrev pub action_eq : Eq Action
action_eq = record {
  is_same = λ a b. nat_eq (action_code a) (action_code b);
  is_same_iff = action_beq_iff;
}

-- Calls of the provisioning manager with their answers, and of the lifecycle observer.
pub data Event : Type 0 where
  called : Action → Option Error → Event
  network_state : Transition → Event
  recovery_requested : Event
  provisioning_action : Bool → Bool → Event

-- `returned` holds the function's result once it has returned.
pub record Controller : Type 0 where
  pub current : Action
  pub awaiting_provisioning : Bool
  pub requests : Requests
  pub transitions : Bool  -- the channel is not nil
  pub source_errors : Bool
  pub events : List Event
  pub returned : Option (Option Error)

-- `requested` is a call of `Requests.Request` by another goroutine.
pub data Input : Type 0 where
  done : Input
  transition : Transition → Option Error → Bool → Input
  transitions_closed : Bool → Input
  notified : Option Error → Bool → Input
  source_error : Option Error → Input
  source_errors_closed : Bool → Input
  requested : Input

pub failure_text : Reason → String → String
failure_text reason detail =
    let base = "appliance reconciliation failed: " ++ reason_text reason in
    if detail == "" then base else base ++ (": " ++ detail)

unfoldable pub action_for : State → Result Action
action_for s = elim s.stage [
  | Stage.booting ↦ ok no_action
  | Stage.reconciling ↦ ok no_action
  | Stage.waiting_for_connectivity ↦ ok no_action
  | Stage.provisioning ↦ ok enter_provisioning
  | Stage.infrastructure ↦ ok leave_provisioning
  | Stage.standalone ↦ ok leave_provisioning
  | Stage.failed ↦
      let e = new (failure_text s.reason s.detail) in
      if s.reason == Reason.observation_failed then err e else err (terminal e)
  | Stage.stopped ↦ ok no_action
  | Stage.unset ↦ err (terminal (new "unsupported appliance state"))
]

abbrev pub initial : Requests → Controller
initial requests = record {
  current = no_action;
  awaiting_provisioning = false;
  requests = requests;
  transitions = true;
  source_errors = true;
  events = [];
  returned = none;
}

abbrev pub return : Controller → Option Error → Controller
return c e = record c { returned = some e }

abbrev pub log : Controller → Event → Controller
log c e = record c { events = e ∷ c.events }

-- `observer` says whether `config.Observer` is set.
module _ (observer : Bool) where
  abbrev pub observe : Controller → Event → Controller
  observe c e = if observer then log c e else c

  abbrev pub is_none : Option Error → Bool
  is_none none = true
  is_none (some _) = false

  unfoldable pub apply : Controller → Action → Option Error → Controller × Option Error
  apply c enter_provisioning answer = (
    observe (log c (called enter_provisioning answer)) (provisioning_action true (is_none answer)),
    wrap_some "enter temporary provisioning" answer,
  )
  apply c leave_provisioning answer = (
    observe (log c (called leave_provisioning answer)) (provisioning_action false (is_none answer)),
    wrap_some "leave temporary provisioning" answer,
  )
  apply c no_action answer = (c, some (new "unsupported appliance action"))

  unfoldable pub apply_recovery : Controller → Option Error → Controller × Option Error
  apply_recovery c answer =
      let completed = complete c.requests in
      if c.current == enter_provisioning
      then (record c { requests = completed }, none)
      else (let (c', e) = apply c enter_provisioning answer in
          elim e [
            | some e ↦ (c', some e)
            | none ↦ (
              record c' {
                requests = completed;
                current = enter_provisioning;
                awaiting_provisioning = true;
              },
              none,
            )
          ])

  -- `if runContext.Err() != nil { return nil }; return err`
  abbrev pub return_error : Controller → Option Error → Bool → Controller
  return_error c none cancelled = c
  return_error c (some e) cancelled = return c (if cancelled then none else some e)

  -- The case of a transition, from the action that it asks for.
  unfoldable pub take_action : Controller → Action → Option Error → Bool → Controller
  take_action c next answer cancelled =
      let c' = record c {
        awaiting_provisioning =
            if c.awaiting_provisioning && next == enter_provisioning
            then false
            else c.awaiting_provisioning;
      } in
      if c'.awaiting_provisioning && next == leave_provisioning
      then c'
      else if next == no_action || next == c'.current
      then c'
      else (let (c'', e) = apply c' next answer in
          elim e [
            | none ↦ record c'' { current = next }
            | some e ↦ return_error c'' (some e) cancelled
          ])

  unfoldable pub take_transition : Controller → Transition → Option Error → Bool → Controller
  take_transition c t answer cancelled =
      let c' = observe c (network_state t) in
      if t.current.stage == Stage.stopped then return c' none else elim (action_for t.current) [
        | err e ↦ return c' (some e)
        | ok next ↦ take_action c' next answer cancelled
      ]

  unfoldable pub take_notification : Controller → Option Error → Bool → Controller
  take_notification c answer cancelled =
      let c' = record c { requests = receive c.requests } in
      if c'.requests.pending
      then (let (c'', e) = apply_recovery (observe c' recovery_requested) answer in
          return_error c'' e cancelled)
      else c'

  -- Below the loop, which ends when both channels are nil.
  unfoldable pub after_close : Controller → Bool → Controller
  after_close c cancelled =
      if c.transitions || c.source_errors
      then c
      else return c
          (if cancelled then none else some (new "appliance reconciliation stopped unexpectedly"))

  -- One round. A nil channel and an empty one are not ready, so their cases are not taken.
  unfoldable pub round : Controller → Input → Controller
  round c done = return c none
  round c (transition t answer cancelled) =
      if c.transitions then take_transition c t answer cancelled else c
  round c (transitions_closed cancelled) = after_close (record c { transitions = false }) cancelled
  round c (notified answer cancelled) =
      if c.requests.notify then take_notification c answer cancelled else c
  round c (source_error none) = c
  round c (source_error (some e)) =
      if c.source_errors then return c (some (wrap "observe appliance network state" e)) else c
  round c (source_errors_closed cancelled) =
      after_close (record c { source_errors = false }) cancelled
  round c requested = record c { requests = (request c.requests).0 }

  unfoldable pub step : Controller → Input → Controller
  step c input = elim c.returned [ none ↦ round c input | some e ↦ c ]

  unfoldable pub run_from : Controller → List Input → Controller
  run_from c [] = c
  run_from c (input ∷ inputs) = run_from (step c input) inputs

  -- The statements before the loop, once the source runs.
  unfoldable pub start : Requests → Option Error → Controller
  start requests answer =
      let c = initial requests in
      if requests.pending
      then (let (c', e) = apply_recovery (observe c recovery_requested) answer in
          return_error c' e false)
      else c

  unfoldable pub run : Requests → Option Error → List Input → Controller
  run requests answer inputs = run_from (start requests answer) inputs
