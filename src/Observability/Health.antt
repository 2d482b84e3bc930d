-- ===== src/Observability/Health.antt =====
-- internal/observability/health.go. The mutex makes each method one step. `changes` is the channel
-- of capacity one; the set of degraded components is a list without repetition.
pub mod Laws
mod Tests
use onboardd.Prelude.{
  ℕ, String, Bool, true, false, not, ◌&&◌, ◌||◌, Option, none, some, List, [], ◌∷◌, Eq, nat_eq,
  ◌==◌, ◌!=◌, string_eq, insert, delete, if◌then◌else◌, ◌≡◌, ◌↔◌, arith,
}
use onboardd.Appliance.Types.{Stage, Mode, Reason}

pub data Status : Type 0 where
  starting reconciling ready recovering stopping stopped failed : Status

pub data Component : Type 0 where
  runtime reconciler http control systemd : Component

abbrev pub component_code : Component → ℕ
component_code runtime = 0
component_code reconciler = 1
component_code http = 2
component_code control = 3
component_code systemd = 4

pub component_beq_iff :
    (a b : Component) → (nat_eq (component_code a) (component_code b) ≡ true) ↔ (a ≡ b)
component_beq_iff a b = ground arith

instance abbrev pub component_eq : Eq Component
component_eq = record {
  is_same = λ a b. nat_eq (component_code a) (component_code b);
  is_same_iff = component_beq_iff;
}

pub record Snapshot : Type 0 where
  pub status : Status
  pub healthy : Bool
  pub ready : Bool
  pub sequence : ℕ
  pub stage : Stage
  pub mode : Mode
  pub reason : Reason
  pub updated_at : ℕ

pub record Health : Type 0 where
  pub snapshot : Snapshot
  pub degraded : List Component
  pub changes : Option Snapshot

abbrev pub is_empty : List Component → Bool
is_empty [] = true
is_empty (d ∷ ds) = false

-- An unread value is dropped, so the send always finds room.
abbrev pub publish : Health → Health
publish h = record h { changes = some h.snapshot }

-- `now` is the clock's value, here and below.
unfoldable pub new_health : ℕ → Health
new_health now = publish (record {
  snapshot = record {
    status = Status.starting;
    healthy = true;
    ready = false;
    sequence = 0;
    stage = Stage.unset;
    mode = Mode.unset;
    reason = Reason.unset;
    updated_at = now;
  };
  degraded = [];
  changes = none;
})

abbrev pub is_settled : Stage → Bool
is_settled Stage.infrastructure = true
is_settled Stage.standalone = true
is_settled Stage.provisioning = true
is_settled _ = false

abbrev pub is_progress : Stage → Bool
is_progress Stage.booting = true
is_progress Stage.reconciling = true
is_progress Stage.waiting_for_connectivity = true
is_progress _ = false

-- The `switch` of `deriveLocked`.
abbrev pub derived_status : List Component → Stage → Status
derived_status degraded stage =
    if not (is_empty degraded)
    then Status.recovering
    else if is_settled stage
    then Status.ready
    else if is_progress stage
    then Status.reconciling
    else Status.starting

unfoldable pub derive : Health → ℕ → Health
derive h now = publish (record h {
  snapshot = record h.snapshot {
    status = derived_status h.degraded h.snapshot.stage;
    healthy = true;
    ready = is_empty h.degraded && is_settled h.snapshot.stage;
    updated_at = now;
  };
})

abbrev pub is_stage_failed : Stage → Bool
is_stage_failed Stage.failed = true
is_stage_failed _ = false

unfoldable pub observe_network_state : Health → ℕ → Stage → Mode → Reason → ℕ → Health
unfolding derive
observe_network_state h sequence stage mode reason now =
    derive
      (record h {
        snapshot = record h.snapshot {
          sequence = sequence;
          stage = stage;
          mode = mode;
          reason = reason;
        };
        degraded =
            if is_settled stage
            then delete reconciler h.degraded
            else if is_stage_failed stage
            then insert reconciler h.degraded
            else h.degraded;
      })
      now

unfoldable pub component_retry : Health → Component → ℕ → Health
unfolding derive
component_retry h c now = derive (record h { degraded = insert c h.degraded }) now

unfoldable pub component_recovered : Health → Component → ℕ → Health
unfolding derive
component_recovered h c now = derive (record h { degraded = delete c h.degraded }) now

unfoldable pub set_terminal : Health → Status → ℕ → Health
set_terminal h status now = publish (record h {
  snapshot = record h.snapshot {
    status = status;
    healthy = false;
    ready = false;
    updated_at = now;
  };
})

-- The receive on `Changes()`.
unfoldable pub receive : Health → Health × Option Snapshot
receive h = (record h { changes = none }, h.changes)

pub data Op : Type 0 where
  observe : ℕ → Stage → Mode → Reason → ℕ → Op
  retry recovered : Component → ℕ → Op
  mark_stopping mark_stopped mark_failed : ℕ → Op
  take : Op

unfoldable pub apply : Health → Op → Health
unfolding observe_network_state component_retry component_recovered set_terminal receive
apply h (observe sequence stage mode reason now) =
    observe_network_state h sequence stage mode reason now
apply h (retry c now) = component_retry h c now
apply h (recovered c now) = component_recovered h c now
apply h (mark_stopping now) = set_terminal h Status.stopping now
apply h (mark_stopped now) = set_terminal h Status.stopped now
apply h (mark_failed now) = set_terminal h Status.failed now
apply h take = (receive h).0

unfoldable pub apply_all : Health → List Op → Health
apply_all h [] = h
apply_all h (op ∷ ops) = apply_all (apply h op) ops

-- The status code of `ServeHTTP`.
unfoldable pub serve : Health → String → ℕ
serve h method =
    if method != "GET" && method != "HEAD" then 405 else if h.snapshot.healthy then 200 else 503
