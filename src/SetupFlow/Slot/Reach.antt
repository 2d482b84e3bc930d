-- ===== src/SetupFlow/Slot/Reach.antt =====
-- The runs of the service of internal/setupflow/service.go: its methods and goroutines in any order.
use onboardd.Prelude.{ℕ, ◌≤◌, String, true, Option, none, contains, length, string_eq, ◌≡◌}
use onboardd.GoError.{Error, ok, err}
use onboardd.SetupFlow.Types.{OperationKind}
use onboardd.SetupFlow.Slot.{
  Action, Service, new_service, is_active, is_some, operation_history_limit, start,
  cancel_pending_operation, begin_operation, finish, shutdown, begin_forget, end_forget,
}
use onboardd.SetupFlow.Slot.Invariant.{
  Inv, new_service-Inv, start-Inv, start_failed-Inv, cancel-Inv, begin-Inv, finish-Inv,
  shutdown-Inv, begin_forget-Inv, end_forget-Inv, parent_done-Inv,
}

-- One step. A new id is random, so it is none that is stored; a goroutine ends once.
pub data Step : Service → Service → Type 0 where
  starts :
      (s : Service) (kind : OperationKind) (network : String) (action : Action) (id : String)
      (now : ℕ)
      → s.operations id ≡ none
      → Step s (start s kind network action (ok id) now).0
  no_id :
      (s : Service) (kind : OperationKind) (network : String) (action : Action) (e : Error)
      (now : ℕ)
      → Step s (start s kind network action (err e) now).0
  cancels : (s : Service) (id : String) (now : ℕ) → Step s (cancel_pending_operation s id now).0
  begins : (s : Service) (id : String) (now : ℕ) → Step s (begin_operation s id now).0
  finishes :
      (s : Service) (id : String) (result : Option Error) (now : ℕ)
      → contains id s.workers ≡ true
      → Step s (finish s id result now)
  shuts_down : (s : Service) (now : ℕ) → Step s (shutdown s now)
  parent_done : (s : Service) → Step s (record s { cancelled = true })
  forgets : (s : Service) → Step s (begin_forget s).0
  forgotten : (s : Service) → Step s (end_forget s)

pub data Reach (s : Service) : Service → Type 0 where
  here : Reach s s
  next : {t u : Service} → Reach s t → Step t u → Reach s u

pub Step-Inv : {s t : Service} → Step s t → Inv s → Inv t
Step-Inv (starts s kind network action id now fresh) inv =
    start-Inv s inv kind network action id now fresh
Step-Inv (no_id s kind network action e now) inv = start_failed-Inv s inv kind network action e now
Step-Inv (cancels s id now) inv = cancel-Inv s inv id now
Step-Inv (begins s id now) inv = begin-Inv s inv id now
Step-Inv (finishes s id result now worker) inv = finish-Inv s inv id result now worker
Step-Inv (shuts_down s now) inv = shutdown-Inv s inv now
Step-Inv (parent_done s) inv = parent_done-Inv s inv
Step-Inv (forgets s) inv = begin_forget-Inv s inv
Step-Inv (forgotten s) inv = end_forget-Inv s inv

pub Reach-Inv : {s t : Service} → Reach s t → Inv s → Inv t
Reach-Inv here inv = inv
Reach-Inv (next r step) inv = Step-Inv step (Reach-Inv r inv)

pub run-Inv : {s : Service} → Reach new_service s → Inv s
run-Inv r = Reach-Inv r new_service-Inv

-- In every state that the service reaches, at most one operation is pending or running: two active
-- ids are the same.
pub single_flight :
    {s : Service} (i j : String)
    → Reach new_service s
    → is_active (s.operations i) ≡ true
    → is_active (s.operations j) ≡ true
    → i ≡ j
single_flight i j r p q = (run-Inv r).single i j p q

-- In every state that the service reaches, the history lists at most ten operations, and an id is
-- listed exactly if its operation is stored; so at most ten operations are stored.
pub history_bounded :
    {s : Service} (id : String)
    → Reach new_service s
    → (length s.order ≤ operation_history_limit) × (contains id s.order ≡ is_some (s.operations id))
history_bounded id r = ((run-Inv r).bounded, ((run-Inv r).fits id).listed)
