-- ===== src/Appliance/Engine.antt =====
-- `Engine.run` of internal/appliance/engine.go: the loop that turns snapshots into transitions.
-- The loop's variables are a record. A value that the environment gives to one round (the
-- snapshot, whether a send beats the cancelled context, `ctx.Err()`) is an argument of the round.
-- What was sent on the two output channels is a list, the last value first.
mod Waiting
mod Timers
mod Links
mod Tests
use onboardd.Prelude.{
  ℕ, ◌+◌, ◌%◌, ◌^◌, String, Bool, true, false, ◌||◌, Option, none, some, List, [], ◌∷◌, ◌==◌,
  if◌then◌else◌,
}
use onboardd.GoError.{Error, wrap, Result, ok, err}
use onboardd.Connectivity.{Requirement}
use onboardd.Appliance.Types.{Mode, Stage, Reason, Snapshot, State, EventKind, Transition, stage_eq}
use onboardd.Appliance.Evaluate.{state, evaluate, same_state}

-- `running` is false once the function has returned.
pub record Loop : Type 0 where
  pub current : State
  pub sequence : ℕ  -- uint64
  pub grace : Bool  -- graceTimer != nil, and then grace is its channel
  pub timers : ℕ  -- how many timers were created
  pub changes : Bool  -- the channel is not nil
  pub watch_errors : Bool
  pub transitions : List Transition
  pub errors : List Error
  pub running : Bool

-- What the environment answers while a call of `reconcile` runs. `sent` and `error_sent` say which
-- case of the `select` on the output channel and the context is taken.
pub record Answers : Type 0 where
  pub boot_sent : Bool
  pub snapshot : Result Snapshot
  pub snapshot_cancelled : Bool  -- ctx.Err() != nil after a failed Snapshot
  pub sent : Bool
  pub error_sent : Bool
  pub cancelled : Bool  -- ctx.Err() != nil when `reconcile` has returned false

pub data Input : Type 0 where
  done : Bool → Input  -- <-ctx.Done(); the buffered send succeeds or is dropped
  changed : Answers → Input
  changes_closed : Input
  watch_error : Option Error → Bool → Input
  watch_errors_closed : Input
  grace_fired : Answers → Input

abbrev pub zero_state : State
zero_state = state Stage.unset Mode.unset Reason.unset ""

abbrev pub init : Loop
init = record {
  current = zero_state;
  sequence = 0;
  grace = false;
  timers = 0;
  changes = true;
  watch_errors = true;
  transitions = [];
  errors = [];
  running = true;
}

abbrev pub next_sequence : ℕ → ℕ
next_sequence n = (n + 1) % 2 ^ 64

unfoldable pub emit : Loop → State → EventKind → Bool → Loop × Bool
emit l next kind sent =
    if same_state l.current next
    then (l, true)
    else (let sequence = next_sequence l.sequence in
        let numbered = record next { sequence = sequence } in
        if sent
        then (
          record l {
            sequence = sequence;
            current = numbered;
            transitions =
                record { previous = l.current; current = numbered; trigger = kind } ∷ l.transitions;
          },
          true,
        )
        else (record l { sequence = sequence }, false))

abbrev pub stop_grace : Loop → Loop
stop_grace l = record l { grace = false }

abbrev pub start_grace : Loop → Loop
start_grace l = if l.grace then l else record l { grace = true; timers = l.timers + 1 }

abbrev pub send_error : Loop → Error → Bool → Loop
send_error l e sent = if sent then record l { errors = e ∷ l.errors } else l

-- `if !reconcile(…) && ctx.Err() == nil { return }`
abbrev pub return_unless : Loop × Bool → Bool → Loop
return_unless (l, kept) cancelled = record l { running = kept || cancelled }

abbrev pub stopped_state : Loop → State
stopped_state l = record {
  sequence = next_sequence l.sequence;
  stage = Stage.stopped;
  mode = l.current.mode;
  reason = Reason.interrupted;
  detail = "";
}

-- The case `<-ctx.Done()`.
unfoldable pub stop : Loop → Bool → Loop
stop l sent =
    let transition : Transition = record {
      previous = l.current;
      current = stopped_state l;
      trigger = EventKind.cancelled;
    } in
    record l {
      grace = false;
      sequence = next_sequence l.sequence;
      transitions = if sent then transition ∷ l.transitions else l.transitions;
      running = false;
    }

-- `reconcile` below a successful `Snapshot`: arm or stop the timer, then emit.
unfoldable pub settle : Loop → State → EventKind → Bool → Loop × Bool
settle l next kind sent =
    if next.stage == Stage.waiting_for_connectivity
    then emit (start_grace l) next kind sent
    else emit (stop_grace l) next kind sent

-- `reconcile` below a failed one.
unfoldable pub report : Loop → State → EventKind → Error → Answers → Loop × Bool
report l failure kind e a = if a.snapshot_cancelled then (l, false) else (
  send_error (emit (stop_grace l) failure kind a.sent).0 (wrap "inspect network state" e)
      a.error_sent,
  true,
)

-- `err.Error()` is the text of an error.
module _ (requirement : Requirement) (error_text : Error → String) where
  unfoldable pub resolve : Loop → EventKind → Bool → Answers → Result Snapshot → Loop × Bool
  resolve l kind timed_out a (err e) =
      report l (state Stage.failed Mode.none Reason.observation_failed (error_text e)) kind e a
  resolve l kind timed_out a (ok snapshot) =
      settle l (evaluate snapshot requirement timed_out) kind a.sent

  -- `reconcile`, but for its first statement.
  unfoldable pub inspect : Loop → EventKind → Bool → Answers → Loop × Bool
  unfolding resolve
  inspect l kind timed_out a = resolve l kind timed_out a a.snapshot

  -- `reconcile(EventBoot, false)` first reports that the network is being inspected.
  unfoldable pub reconcile_boot : Loop → Answers → Loop × Bool
  reconcile_boot l a =
      let (l', sent) =
        emit l (state Stage.reconciling l.current.mode Reason.inspecting_network "") EventKind.boot
          a.boot_sent in
      if sent then inspect l' EventKind.boot false a else (l', false)

  -- The statements before the loop. The first send is a parameter too.
  unfoldable pub start : Bool → Answers → Loop
  start booting_sent a =
      let (l, sent) =
        emit init (state Stage.booting Mode.none Reason.starting "") EventKind.boot booting_sent in
      if sent then return_unless (reconcile_boot l a) a.cancelled else record l { running = false }

  -- One round of the `select`. A nil channel is never ready, so its case is not taken.
  unfoldable pub round : Loop → Input → Loop
  round l (done sent) = stop l sent
  round l (changed a) =
      if l.changes
      then return_unless (inspect l EventKind.network_changed false a) a.cancelled
      else l
  round l changes_closed = record l { changes = false }
  round l (watch_error none sent) = l
  round l (watch_error (some e) sent) =
      if l.watch_errors then send_error l (wrap "observe network state" e) sent else l
  round l watch_errors_closed = record l { watch_errors = false }
  round l (grace_fired a) =
      if l.grace
      then return_unless (inspect (stop_grace l) EventKind.grace_expired true a) a.cancelled
      else l

  unfoldable pub step : Loop → Input → Loop
  step l input = if l.running then round l input else l

  unfoldable pub run_from : Loop → List Input → Loop
  run_from l [] = l
  run_from l (input ∷ inputs) = run_from (step l input) inputs

  unfoldable pub run : Bool → Answers → List Input → Loop
  run booting_sent a inputs = run_from (start booting_sent a) inputs
