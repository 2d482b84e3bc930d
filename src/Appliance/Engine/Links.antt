-- ===== src/Appliance/Engine/Links.antt =====
-- The sequence of transitions that the loop sends.
use onboardd.Prelude.{
  ℕ, ◌+◌, ◌^◌, ◌<◌, ◌≤◌, String, Bool, true, false, Bool-cases, if_intro, inl, inr, List, [], ◌∷◌,
  length, none, some, refl, subst, ◌≡◌, ◌≢◌, ◌==◌, arith,
}
use onboardd.GoError.{Error, Result, ok, err}
use onboardd.Connectivity.{Requirement}
use onboardd.Appliance.Types.{Mode, Reason, Stage, Snapshot, State, EventKind, Transition, stage_eq}
use onboardd.Appliance.Evaluate.{state, evaluate, same_state}
use onboardd.Appliance.Evaluate.Laws.{StageMode, evaluate-StageMode, same_state_differ}
use onboardd.Appliance.Engine.{
  next_sequence, return_unless, Loop, zero_state, init, Answers, Input, done, changed,
  changes_closed, watch_error, watch_errors_closed, grace_fired, start_grace, stop_grace, emit,
  settle, report, resolve, inspect, round, reconcile_boot, start, step, run_from, run, stop,
  stopped_state,
}

-- The state of which the last transition told; the list has it first.
abbrev pub last_state : List Transition → State
last_state [] = zero_state
last_state (t ∷ ts) = t.current

-- Each transition starts where the one before it ended, changes what `sameState` compares, and has
-- a larger sequence number.
abbrev pub Linked : List Transition → Type 0
Linked [] = Unit
Linked (t ∷ ts) =
    (t.previous ≡ last_state ts)
    × (same_state t.previous t.current ≡ false)
    × (t.previous.sequence < t.current.sequence)
    × Linked ts

-- `n` bounds the sequence number, below the wrap of uint64.
record Inv (n : ℕ) (l : Loop) : Type 0 where
  linked : Linked l.transitions
  at_end : l.running ≡ true → l.current ≡ last_state l.transitions
  numbered : l.running ≡ true → l.current.sequence ≤ l.sequence
  bounded : l.sequence ≤ n
  not_stopped : l.running ≡ true → l.current.stage ≢ Stage.stopped

abbrev Good : ℕ → Loop × Bool → Type 0
Good n (l, _) = Inv n l × (l.running ≡ true)

same_state-sequence :
    (left right : State) (n : ℕ)
    → same_state left (record right { sequence = n }) ≡ same_state left right
unfolding same_state
same_state-sequence left right n = refl

evaluate-ne-stopped :
    (snapshot : Snapshot) (requirement : Requirement) (timed_out : Bool)
    → (evaluate snapshot requirement timed_out).stage ≢ Stage.stopped
evaluate-ne-stopped snapshot requirement timed_out e =
    let mode = (evaluate snapshot requirement timed_out).mode in
    subst (λ stage. StageMode stage mode) e (evaluate-StageMode snapshot requirement timed_out)

module _ (n : ℕ) (room : n + 1 < 2 ^ 64) where
  emit-Inv :
      (l : Loop) (next : State) (kind : EventKind) (sent : Bool)
      → next.stage ≢ Stage.stopped
      → l.running ≡ true
      → Inv n l
      → Good (n + 1) (emit l next kind sent)
  unfolding emit
  emit-Inv l next kind sent stage running inv = ground (
    arith,
    inv.at_end running,
    inv.numbered running,
    inv.not_stopped running,
    same_state-sequence l.current next (next_sequence l.sequence),
  )

  stop_grace-Inv : (l : Loop) → Inv n l → Inv n (stop_grace l)
  stop_grace-Inv l inv = record {
    linked = inv.linked;
    at_end = inv.at_end;
    numbered = inv.numbered;
    bounded = inv.bounded;
    not_stopped = inv.not_stopped;
  }

  start_grace-Inv : (l : Loop) → Inv n l → Inv n (start_grace l)
  start_grace-Inv l inv = ground arith

  weaken : (l : Loop) → Inv n l → Inv (n + 1) l
  weaken l inv = ground arith

  -- A round that returns keeps all but what is said of a running loop.
  return_unless-Inv :
      (m : ℕ) (r : Loop × Bool) (cancelled : Bool) → Good m r → Inv m (return_unless r cancelled)
  return_unless-Inv m r cancelled good = ground arith

  settle-Inv :
      (l : Loop) (next : State) (kind : EventKind) (sent : Bool)
      → next.stage ≢ Stage.stopped
      → l.running ≡ true
      → Inv n l
      → Good (n + 1) (settle l next kind sent)
  unfolding settle
  settle-Inv l next kind sent stage running inv =
      elim (Bool-cases (next.stage == Stage.waiting_for_connectivity)) [
        | inl waits ↦
            rw waits
              (emit-Inv (start_grace l) next kind sent stage (ground arith) (start_grace-Inv l inv))
        | inr settled ↦
            rw settled (emit-Inv (stop_grace l) next kind sent stage running (stop_grace-Inv l inv))
      ]

  report-Inv :
      (l : Loop) (failure : State) (kind : EventKind) (e : Error) (a : Answers)
      → failure.stage ≢ Stage.stopped
      → l.running ≡ true
      → Inv n l
      → Good (n + 1) (report l failure kind e a)
  unfolding report
  report-Inv l failure kind e a stage running inv = ground (
    arith,
    emit-Inv (stop_grace l) failure kind a.sent stage running (stop_grace-Inv l inv),
    weaken l inv,
  )

  module _ (requirement : Requirement) (error_text : Error → String) where
    resolve-Inv :
        (l : Loop) (kind : EventKind) (timed_out : Bool) (a : Answers) (r : Result Snapshot)
        → l.running ≡ true
        → Inv n l
        → Good (n + 1) (resolve requirement error_text l kind timed_out a r)
    unfolding resolve
    resolve-Inv l kind timed_out a (ok snapshot) running inv =
        settle-Inv l _ kind a.sent (evaluate-ne-stopped snapshot requirement timed_out) running inv
    resolve-Inv l kind timed_out a (err e) running inv =
        report-Inv l _ kind e a (λ p. cc) running inv

    inspect-Inv :
        (l : Loop) (kind : EventKind) (timed_out : Bool) (a : Answers)
        → l.running ≡ true
        → Inv n l
        → Good (n + 1) (inspect requirement error_text l kind timed_out a)
    unfolding inspect
    inspect-Inv l kind timed_out a running inv =
        resolve-Inv l kind timed_out a a.snapshot running inv

    round-Inv :
        (l : Loop) (input : Input)
        → l.running ≡ true
        → Inv n l
        → Inv (n + 1) (round requirement error_text l input)
    unfolding round stop
    round-Inv l (done sent) running inv = ground (
      arith,
      inv.at_end running,
      inv.numbered running,
      same_state_differ l.current (stopped_state l) (inv.not_stopped running),
    )
    round-Inv l (changed a) running inv = ground (
      arith,
      weaken l inv,
      return_unless-Inv (n + 1) (inspect requirement error_text l EventKind.network_changed false a)
          a.cancelled (inspect-Inv l EventKind.network_changed false a running inv),
    )
    round-Inv l (grace_fired a) running inv = ground (
      arith,
      weaken l inv,
      return_unless-Inv (n + 1)
          (inspect requirement error_text (stop_grace l) EventKind.grace_expired true a) a.cancelled
          (inspect-Inv (stop_grace l) EventKind.grace_expired true a running
            (stop_grace-Inv l inv)),
    )
    round-Inv l (watch_error none sent) running inv = weaken l inv
    round-Inv l (watch_error (some e) sent) running inv = ground (arith, weaken l inv)
    round-Inv l changes_closed running inv = ground (arith, weaken l inv)
    round-Inv l watch_errors_closed running inv = ground (arith, weaken l inv)

    step-Inv :
        (l : Loop) (input : Input) → Inv n l → Inv (n + 1) (step requirement error_text l input)
    unfolding step
    step-Inv l input inv =
        if_intro (Inv (n + 1)) l.running (λ running. round-Inv l input running inv)
          (λ _. weaken l inv)

init-Inv : Inv 0 init
init-Inv = ground arith

module _ (requirement : Requirement) (error_text : Error → String) where
  reconcile_boot-Inv :
      (n : ℕ) (l : Loop) (a : Answers)
      → n + 2 < 2 ^ 64
      → l.running ≡ true
      → Inv n l
      → Good (n + 2) (reconcile_boot requirement error_text l a)
  unfolding reconcile_boot
  reconcile_boot-Inv n l a room running inv =
      let next = state Stage.reconciling l.current.mode Reason.inspecting_network "" in
      let (inv', running') =
        emit-Inv n (omega arith) l next EventKind.boot a.boot_sent (λ p. cc) running inv in
      let l' = (emit l next EventKind.boot a.boot_sent).0 in
      let (inv'', running'') =
        inspect-Inv (n + 1) (omega arith) requirement error_text l' EventKind.boot false a running'
          inv' in
      ground (arith, inv', inv'', running', running'')

  start-Inv : (sent : Bool) (a : Answers) → Inv 3 (start requirement error_text sent a)
  unfolding start
  start-Inv sent a =
      let next = state Stage.booting Mode.none Reason.starting "" in
      let (inv, running) =
        emit-Inv 0 (omega arith) init next EventKind.boot sent (λ p. cc) refl init-Inv in
      let l = (emit init next EventKind.boot sent).0 in
      let good = reconcile_boot-Inv 1 l a (omega arith) running inv in ground (arith, inv, good)

  run_from-Inv :
      (n : ℕ) (l : Loop) (inputs : List Input)
      → n + length inputs < 2 ^ 64
      → Inv n l
      → Inv (n + length inputs) (run_from requirement error_text l inputs)
  unfolding run_from
  run_from-Inv n l [] room inv = subst (λ m. Inv m l) (omega arith) inv
  run_from-Inv n l (input ∷ inputs) room inv =
      let l' = step requirement error_text l input in
      subst (λ m. Inv m (run_from requirement error_text l' inputs)) (omega arith)
        (run_from-Inv (n + 1) l' inputs (omega arith)
          (step-Inv n (omega arith) requirement error_text l input inv))

  -- The transitions that the engine sends over its whole life form a chain: the first starts from
  -- the zero state and each other one from where the one before it ended, each changes the stage,
  -- the mode, the reason or the detail, and the sequence numbers grow. Inputs, snapshots and failed
  -- sends are arbitrary; there are fewer rounds than a uint64 counts, less three.
  pub run-Linked :
      (sent : Bool) (a : Answers) (inputs : List Input)
      → length inputs + 3 < 2 ^ 64
      → Linked (run requirement error_text sent a inputs).transitions
  unfolding run
  run-Linked sent a inputs room =
      (run_from-Inv 3 (start requirement error_text sent a) inputs (omega arith)
        (start-Inv sent a)).linked
