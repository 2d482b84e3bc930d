-- ===== src/SetupFlow/Slot.antt =====
-- `Service` of internal/setupflow/service.go: one network change at a time. The mutex makes each
-- method one step; the goroutine of an operation ends with the step `finish`. A map is a function;
-- the counter of the wait group is the list of the operations whose goroutine runs.
pub mod Invariant
pub mod Life
pub mod Reach
pub mod Trim
mod Tests
use onboardd.Prelude.{
  ℕ, String, Bool, true, false, not, ◌&&◌, ◌||◌, Option, none, some, List, [], ◌∷◌, ◌++◌, length,
  contains, delete, leb, ◌==◌, string_eq, if◌then◌else◌,
}
use onboardd.GoError.{Error, Result, ok, err}
use onboardd.SetupFlow.Types.{
  OperationKind, OperationState, pending, running, succeeded, failed, Failure, Operation,
  ConnectionRequest, profile_change_in_progress, interrupted_failure, service_stopping_error,
  public_failure,
}

-- What an operation will do: the closures that the three start methods queue.
pub data Action : Type 0 where
  connect : ConnectionRequest → Action
  connect_known : String → Action
  standalone : Action

pub record Service : Type 0 where
  pub operations : String → Option Operation
  pub actions : String → Option Action
  pub order : List String
  pub is_forgetting : Bool
  pub is_shutting_down : Bool
  pub cancelled : Bool  -- ctx.Err() != nil
  pub workers : List String  -- operationWG

abbrev pub new_service : Service
new_service = record {
  operations = λ id. none;
  actions = λ id. none;
  order = [];
  is_forgetting = false;
  is_shutting_down = false;
  cancelled = false;
  workers = [];
}

abbrev pub store {ℓ} : {A : Type ℓ} → (String → Option A) → String → Option A → String → Option A
store m id value j = if j == id then value else m j

abbrev pub is_active : Option Operation → Bool
is_active none = false
is_active (some o) = elim o.state [ pending ↦ true | running ↦ true | _ ↦ false ]

abbrev pub is_pending : Option Operation → Bool
is_pending none = false
is_pending (some o) = elim o.state [ pending ↦ true | _ ↦ false ]

abbrev pub is_running : Option Operation → Bool
is_running none = false
is_running (some o) = elim o.state [ running ↦ true | _ ↦ false ]

abbrev pub is_some {ℓ} : {A : Type ℓ} → Option A → Bool
is_some none = false
is_some (some a) = true

abbrev pub unavailable : Service → Bool
unavailable s = s.is_shutting_down || s.cancelled

-- The newest active operation.
unfoldable pub active_operation : (String → Option Operation) → List String → Option Operation
active_operation operations [] = none
active_operation operations (id ∷ later) = elim (active_operation operations later) [
  | some o ↦ some o
  | none ↦ if is_active (operations id) then operations id else none
]

abbrev pub operation_history_limit : ℕ
operation_history_limit = 10

-- `trimHistoryLocked`: the service with a shorter order, from the oldest operation on.
unfoldable pub trim_history : Service → List String → Service
trim_history s [] = record s { order = [] }
trim_history s (oldest ∷ rest) =
    let trimmed =
      trim_history
        (record s {
          operations = store s.operations oldest none;
          actions = store s.actions oldest none;
        })
        rest in
    if leb (length (oldest ∷ rest)) operation_history_limit || is_active (s.operations oldest)
    then record s { order = oldest ∷ rest }
    else trimmed

pub data Started : Type 0 where
  accepted : Operation → Started
  refused : Error → Started
  conflict : Operation → Started

abbrev pub pending_operation : String → OperationKind → String → ℕ → Operation
pending_operation id kind network now = record {
  id = id;
  kind = kind;
  state = pending;
  network = network;
  failure = none;
  created_at = now;
  finished_at = none;
}

-- The part of `start` that reserves the slot.
unfoldable pub reserve : Service → OperationKind → String → Action → String → ℕ → Service
unfolding trim_history
reserve s kind network action id now =
    trim_history
      (record s {
        operations = store s.operations id (some (pending_operation id kind network now));
        actions = store s.actions id (some action);
      })
      (s.order ++ id ∷ [])

-- `id` is the answer of `newOperationID`.
unfoldable pub start :
    Service → OperationKind → String → Action → Result String → ℕ → Service × Started
unfolding active_operation
start s kind network action id now =
    if unavailable s
    then (s, refused service_stopping_error)
    else if s.is_forgetting
    then (s, refused profile_change_in_progress)
    else elim (active_operation s.operations s.order) [
      | some o ↦ (s, conflict o)
      | none ↦ elim id [
        | err e ↦ (s, refused e)
        | ok id ↦
            (reserve s kind network action id now, accepted (pending_operation id kind network now))
      ]
    ]

abbrev pub interrupted : Operation → ℕ → Operation
interrupted o now = record o {
  state = failed;
  finished_at = some now;
  failure = some interrupted_failure;
}

abbrev pub is_cancellable : Service → String → Bool
is_cancellable s id = is_pending (s.operations id) && is_some (s.actions id)

abbrev pub interrupt : Option Operation → ℕ → Option Operation
interrupt none now = none
interrupt (some o) now = some (interrupted o now)

unfoldable pub cancel_pending_operation : Service → String → ℕ → Service × Bool
cancel_pending_operation s id now =
    if is_cancellable s id
    then (
      record s {
        operations = store s.operations id (interrupt (s.operations id) now);
        actions = store s.actions id none;
      },
      true,
    )
    else (s, false)

abbrev pub run_state : Option Operation → Option Operation
run_state none = none
run_state (some o) = some (record o { state = running })

unfoldable pub begin_operation : Service → String → ℕ → Service × Bool
unfolding cancel_pending_operation
begin_operation s id now =
    if not (is_cancellable s id)
    then (s, false)
    else if unavailable s
    then ((cancel_pending_operation s id now).0, false)
    else (
      record s {
        operations = store s.operations id (run_state (s.operations id));
        actions = store s.actions id none;
        workers = id ∷ s.workers;
      },
      true,
    )

abbrev pub outcome : Option Operation → Option Error → ℕ → Option Operation
outcome none result now = none
outcome (some o) none now = some (record o { state = succeeded; finished_at = some now })
outcome (some o) (some e) now =
    some (record o { state = failed; finished_at = some now; failure = some (public_failure e) })

-- `run`, once its action has returned `result`.
unfoldable pub finish : Service → String → Option Error → ℕ → Service
finish s id result now = record s {
  operations = store s.operations id (outcome (s.operations id) result now);
  workers = delete id s.workers;
}

-- The function of `shutdownOnce`. The loop cancels each queued operation once, in any order.
unfoldable pub shutdown : Service → ℕ → Service
shutdown s now = if s.is_shutting_down then s else record s {
  is_shutting_down = true;
  cancelled = true;
  operations =
      λ id. if is_cancellable s id then interrupt (s.operations id) now else s.operations id;
  actions = λ id. if is_cancellable s id then none else s.actions id;
}

-- `ForgetKnownNetwork` up to the call of the backend: the error, or the flag is taken.
pub data Forget : Type 0 where
  forgetting : Forget
  refused : Error → Forget
  conflict : Operation → Forget

unfoldable pub begin_forget : Service → Service × Forget
unfolding active_operation
begin_forget s =
    if unavailable s
    then (s, Forget.refused service_stopping_error)
    else elim (active_operation s.operations s.order) [
      | some o ↦ (s, Forget.conflict o)
      | none ↦
          if s.is_forgetting
          then (s, Forget.refused profile_change_in_progress)
          else (record s { is_forgetting = true }, forgetting)
    ]

abbrev pub end_forget : Service → Service
end_forget s = record s { is_forgetting = false }

-- The newest operation, for `Bootstrap`.
unfoldable pub latest_operation : (String → Option Operation) → List String → Option Operation
latest_operation operations [] = none
latest_operation operations (id ∷ []) = operations id
latest_operation operations (id ∷ next ∷ later) = latest_operation operations (next ∷ later)
