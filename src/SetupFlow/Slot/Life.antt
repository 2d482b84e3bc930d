-- ===== src/SetupFlow/Slot/Life.antt =====
-- The life of one operation of internal/setupflow/service.go, and what is left after a shutdown.
use onboardd.Prelude.{
  ℕ, String, Bool, true, false, not, ◌&&◌, Bool-cases, Option-cases, if_intro, inl, inr, Option,
  none, some, [], ◌∷◌, contains, contains-delete, ◌==◌, string_eq, eq_iff, refl, ap, subst, ◌∙◌,
  ◌≡◌, ◌⊎◌, ◌++◌, arith,
}
use onboardd.GoError.{Error, ok}
use onboardd.SetupFlow.Types.{
  OperationKind, OperationState, pending, running, succeeded, failed, Operation, Failure,
  interrupted_failure, public_failure,
}
use onboardd.SetupFlow.Slot.{
  Action, Service, new_service, store, is_active, is_pending, is_running, is_cancellable,
  active_operation, unavailable, pending_operation, reserve, start, cancel_pending_operation,
  begin_operation, run_state, interrupt, outcome, finish, shutdown, begin_forget, Started,
}
use onboardd.SetupFlow.Slot.Trim.{trim-KeptAt}
use onboardd.SetupFlow.Slot.Invariant.{Inv}
use onboardd.SetupFlow.Slot.Reach.{
  Step, starts, no_id, cancels, begins, finishes, shuts_down, parent_done, forgets, forgotten,
  Reach, here, next, run-Inv, Reach-Inv, Step-Inv,
}

-- The result of an action that a step brings in, with the operation and the time.
abbrev pub Answer : Type 0
Answer = Option (String × Option Error × ℕ)

abbrev pub answer_of : {s t : Service} → Step s t → Answer
answer_of (finishes s id result now works) = some (id, result, now)
answer_of _ = none

-- A stored operation with another state, which is over at a time or not, with a failure or without.
abbrev pub Stored :
    Operation → OperationState → Option ℕ → Option Failure → Option Operation → Type 0
Stored o state finished failure after =
    after
    ≡ some (record {
      id = o.id;
      kind = o.kind;
      state = state;
      network = o.network;
      failure = failure;
      created_at = o.created_at;
      finished_at = finished;
    })

-- How the stored operation `j` may change in a step with this answer.
pub data Moves (j : String) (answer : Answer) (before after : Option Operation) : Type 0 where
  unchanged : after ≡ before → Moves j answer before after
  created : before ≡ none → is_pending after ≡ true → Moves j answer before after
  begun :
      (o : Operation)
      → before ≡ some o
      → o.state ≡ pending
      → Stored o running o.finished_at o.failure after
      → Moves j answer before after
  stopped :
      (o : Operation) (now : ℕ)
      → before ≡ some o
      → o.state ≡ pending
      → Stored o failed (some now) (some interrupted_failure) after
      → Moves j answer before after
  succeeds :
      (o : Operation) (now : ℕ)
      → answer ≡ some (j, none, now)
      → before ≡ some o
      → o.state ≡ running
      → Stored o succeeded (some now) o.failure after
      → Moves j answer before after
  fails :
      (o : Operation) (e : Error) (now : ℕ)
      → answer ≡ some (j, some e, now)
      → before ≡ some o
      → o.state ≡ running
      → Stored o failed (some now) (some (public_failure e)) after
      → Moves j answer before after
  dropped : is_active before ≡ false → after ≡ none → Moves j answer before after

pending_now :
    (before : Option Operation)
    → is_pending before ≡ true
    → (o : Operation) × (before ≡ some o) × (o.state ≡ pending)
pending_now none h = ground arith
pending_now (some o) h = (o, refl, ground arith)

running_now :
    (before : Option Operation)
    → is_running before ≡ true
    → (o : Operation) × (before ≡ some o) × (o.state ≡ running)
running_now none h = ground arith
running_now (some o) h = (o, refl, ground arith)

begin-Moves_of :
    (j : String) (answer : Answer) (before after : Option Operation)
    → is_pending before ≡ true
    → after ≡ run_state before
    → Moves j answer before after
begin-Moves_of j answer before after h e =
    let (o, same, at) = pending_now before h in begun o same at (e ∙ ap run_state same)

stop-Moves_of :
    (j : String) (answer : Answer) (before after : Option Operation) (now : ℕ)
    → is_pending before ≡ true
    → after ≡ interrupt before now
    → Moves j answer before after
stop-Moves_of j answer before after now h e =
    let (o, same, at) = pending_now before h in
    stopped o now same at (e ∙ ap (λ (x : Option Operation). interrupt x now) same)

end-Moves_of :
    (j : String) (result : Option Error) (now : ℕ) (before after : Option Operation)
    → is_running before ≡ true
    → after ≡ outcome before result now
    → Moves j (some (j, result, now)) before after
end-Moves_of j none now before after h e =
    let (o, same, at) = running_now before h in
    succeeds o now refl same at (e ∙ ap (λ (x : Option Operation). outcome x none now) same)
end-Moves_of j (some failure) now before after h e =
    let (o, same, at) = running_now before h in
    fails o failure now refl same at
      (e ∙ ap (λ (x : Option Operation). outcome x (some failure) now) same)

module _ (s : Service) (inv : Inv s) (j : String) (answer : Answer) where
  start-Moves :
      (kind : OperationKind) (network : String) (action : Action) (id : String) (now : ℕ)
      → s.operations id ≡ none
      → Moves j answer (s.operations j) ((start s kind network action (ok id) now).0.operations j)
  unfolding start reserve
  start-Moves kind network action id now fresh =
      if_intro (λ (x : Service × Started). Moves j answer (s.operations j) (x.0.operations j))
        (unavailable s) (λ _. unchanged refl)
        (λ _.
          if_intro (λ (x : Service × Started). Moves j answer (s.operations j) (x.0.operations j))
            s.is_forgetting (λ _. unchanged refl)
            (λ _. elim (Option-cases (active_operation s.operations s.order)) [
              | inr (o, busy) ↦ rw busy (unchanged refl)
              | inl free ↦
                  rw free
                    (elim (trim-KeptAt
                      (record s {
                        operations =
                            store s.operations id (some (pending_operation id kind network now));
                        actions = store s.actions id (some action);
                      })
                      (s.order ++ id ∷ []) j) [
                        | inl (kept, _) ↦ elim (Bool-cases (j == id)) [
                          | inl same ↦ created (ground (arith, eq_iff j id)) (ground arith)
                          | inr other ↦ unchanged (ground arith)
                        ]
                        | inr (over, gone, _) ↦ dropped (ground (arith, eq_iff j id)) gone
                      ])
            ]))

  cancel-Moves :
      (id : String) (now : ℕ)
      → Moves j answer (s.operations j) ((cancel_pending_operation s id now).0.operations j)
  unfolding cancel_pending_operation
  cancel-Moves id now = elim (Bool-cases (is_cancellable s id && j == id)) [
    | inl hit ↦
        stop-Moves_of j answer _ _ now (ground (arith, eq_iff j id)) (ground (arith, eq_iff j id))
    | inr miss ↦ unchanged (ground arith)
  ]

  begin-Moves :
      (id : String) (now : ℕ)
      → Moves j answer (s.operations j) ((begin_operation s id now).0.operations j)
  unfolding begin_operation
  begin-Moves id now =
      if_intro (λ (x : Service × Bool). Moves j answer (s.operations j) (x.0.operations j))
        (not (is_cancellable s id)) (λ _. unchanged refl)
        (λ queued.
          if_intro (λ (x : Service × Bool). Moves j answer (s.operations j) (x.0.operations j))
            (unavailable s) (λ _. cancel-Moves id now)
            (λ _. elim (Bool-cases (j == id)) [
              | inl same ↦
                  begin-Moves_of j answer _ _ (ground (arith, eq_iff j id))
                    (ground (arith, eq_iff j id))
              | inr other ↦ unchanged (ground arith)
            ]))

  finish-Moves :
      (id : String) (result : Option Error) (now : ℕ)
      → contains id s.workers ≡ true
      → Moves j (some (id, result, now)) (s.operations j) ((finish s id result now).operations j)
  unfolding finish
  finish-Moves id result now works = elim (Bool-cases (j == id)) [
    | inl same ↦
        subst
          (λ (i : String).
            Moves j (some (i, result, now)) (s.operations j)
              ((finish s id result now).operations j))
          ((eq_iff j id).0 same)
          (end-Moves_of j result now (s.operations j) _
            (ground (arith, eq_iff j id, (inv.fits id).worker)) (ground (arith, eq_iff j id)))
    | inr other ↦ unchanged (ground arith)
  ]

  shutdown-Moves : (now : ℕ) → Moves j answer (s.operations j) ((shutdown s now).operations j)
  unfolding shutdown
  shutdown-Moves now =
      if_intro (λ (t : Service). Moves j answer (s.operations j) (t.operations j))
        s.is_shutting_down (λ _. unchanged refl)
        (λ _. elim (Bool-cases (is_cancellable s j)) [
          | inl queued ↦ stop-Moves_of j answer _ _ now (ground arith) (ground arith)
          | inr other ↦ unchanged (ground arith)
        ])

-- From a state that the service reaches, one step changes a stored operation only in these ways: a
-- new one is pending; a pending one starts to run, or fails as interrupted; a running one ends when
-- its own action returns, succeeded if that returned no error, and failed with the public failure of
-- its error otherwise; one that is over stays as it is or is dropped from the history.
pub Step-Moves :
    {s t : Service} (j : String)
    → Reach new_service s
    → (step : Step s t) → Moves j (answer_of step) (s.operations j) (t.operations j)
unfolding start begin_forget
Step-Moves j r (starts s kind network action id now fresh) =
    start-Moves s (run-Inv r) j none kind network action id now fresh
Step-Moves j r (no_id s kind network action e now) = unchanged (ground arith)
Step-Moves j r (cancels s id now) = cancel-Moves s (run-Inv r) j none id now
Step-Moves j r (begins s id now) = begin-Moves s (run-Inv r) j none id now
Step-Moves j r (finishes s id result now works) =
    finish-Moves s (run-Inv r) j (some (id, result, now)) id result now works
Step-Moves j r (shuts_down s now) = shutdown-Moves s (run-Inv r) j none now
Step-Moves j r (parent_done s) = unchanged refl
Step-Moves j r (forgets s) = unchanged (ground arith)
Step-Moves j r (forgotten s) = unchanged refl

Step-stopping :
    {s t : Service} (j : String)
    → s.is_shutting_down ≡ true
    → Step s t
    → (t.is_shutting_down ≡ true) × ((contains j t.workers ≡ false) ⊎ (contains j s.workers ≡ true))
unfolding start begin_forget begin_operation cancel_pending_operation shutdown finish
Step-stopping j h (starts s kind network action id now fresh) = ground arith
Step-stopping j h (no_id s kind network action e now) = ground arith
Step-stopping j h (cancels s id now) = ground arith
Step-stopping j h (begins s id now) = ground arith
Step-stopping j h (finishes s id result now works) = ground (arith, contains-delete j id s.workers)
Step-stopping j h (shuts_down s now) = ground arith
Step-stopping j h (parent_done s) = ground arith
Step-stopping j h (forgets s) = ground arith
Step-stopping j h (forgotten s) = ground arith

Reach-stopping :
    {s t : Service} (j : String)
    → s.is_shutting_down ≡ true
    → Reach s t
    → (t.is_shutting_down ≡ true) × ((contains j t.workers ≡ false) ⊎ (contains j s.workers ≡ true))
Reach-stopping j h here = ground arith
Reach-stopping j h (next r step) =
    ground (arith, Reach-stopping j h r, Step-stopping j (Reach-stopping j h r).0 step)

-- After a shutdown, in every later state: no operation is pending, an operation is active exactly
-- if its goroutine still runs, and no goroutine runs that did not run at the shutdown. So once the
-- goroutines have ended no operation is active, and none begins again.
pub shutdown_drains :
    {s t : Service} (id : String) (now : ℕ)
    → Reach new_service s
    → Reach (shutdown s now) t
    → (is_pending (t.operations id) ≡ false)
      × (is_active (t.operations id) ≡ contains id t.workers)
      × ((contains id t.workers ≡ false) ⊎ (contains id s.workers ≡ true))
unfolding shutdown
shutdown_drains {s} {t} id now r later =
    let inv = Reach-Inv later (Step-Inv (shuts_down s now) (run-Inv r)) in
    ground
      (arith, (inv.fits id).drained, (inv.fits id).worker, Reach-stopping id (ground arith) later)
