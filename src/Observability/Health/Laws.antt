-- ===== src/Observability/Health/Laws.antt =====
-- The health signal after any sequence of events.
use onboardd.Prelude.{
  ℕ, String, Bool, true, false, inl, List, [], ◌∷◌, none, some, refl, ap, contains, contains-insert,
  contains-delete, ◌∙◌, ◌&&◌, if◌then◌else◌, ◌≡◌, ◌≢◌, ◌↔◌, ◌⊎◌, ◌==◌, string_eq, eq_iff, arith,
}
use onboardd.Appliance.Types.{Stage}
use onboardd.Observability.Health.{
  Status, Component, reconciler, component_eq, Health, is_empty, is_settled, is_stage_failed,
  new_health, derive, Op, observe, retry, recovered, mark_stopping, mark_stopped, mark_failed, take,
  apply, apply_all, serve,
}

abbrev pub IsTerminal : Status → Type 0
IsTerminal Status.stopping = Unit
IsTerminal Status.stopped = Unit
IsTerminal Status.failed = Unit
IsTerminal _ = ⊥

-- `ready` and `healthy` say what the status says, an unread change is the current snapshot, and a
-- live process is ready exactly if no component is degraded and the network has settled.
pub record Inv (h : Health) : Type 0 where
  pub latest : (h.changes ≡ none) ⊎ (h.changes ≡ some h.snapshot)
  pub ready_iff : (h.snapshot.ready ≡ true) ↔ (h.snapshot.status ≡ Status.ready)
  pub healthy_iff : (h.snapshot.healthy ≡ false) ↔ IsTerminal h.snapshot.status
  pub derived :
      (h.snapshot.healthy ≡ false)
      ⊎ (h.snapshot.ready ≡ (is_empty h.degraded && is_settled h.snapshot.stage))

apply-Inv : (h : Health) (op : Op) → Inv h → Inv (apply h op)
unfolding apply derive
apply-Inv h take inv = record {
  latest = inl refl;
  ready_iff = inv.ready_iff;
  healthy_iff = inv.healthy_iff;
  derived = inv.derived;
}
apply-Inv h _ inv = ground arith

apply_all-Inv_from : (h : Health) (ops : List Op) → Inv h → Inv (apply_all h ops)
unfolding apply_all
apply_all-Inv_from h [] inv = inv
apply_all-Inv_from h (op ∷ ops) inv = apply_all-Inv_from (apply h op) ops (apply-Inv h op inv)

new_health-Inv : (now : ℕ) → Inv (new_health now)
unfolding new_health
new_health-Inv now = ground arith

-- The last stage that a history observes.
abbrev pub last_stage : List Op → Stage → Stage
last_stage [] before = before
last_stage (observe sequence stage mode reason now ∷ ops) before = last_stage ops stage
last_stage (op ∷ ops) before = last_stage ops before

apply_all-last_stage :
    (h : Health) (ops : List Op)
    → (apply_all h ops).snapshot.stage ≡ last_stage ops h.snapshot.stage
unfolding apply_all apply derive
apply_all-last_stage h [] = refl
apply_all-last_stage h (observe sequence stage mode reason now ∷ ops) =
    apply_all-last_stage (apply h (observe sequence stage mode reason now)) ops
apply_all-last_stage h (retry c now ∷ ops) = apply_all-last_stage (apply h (retry c now)) ops
apply_all-last_stage h (recovered c now ∷ ops) =
    apply_all-last_stage (apply h (recovered c now)) ops
apply_all-last_stage h (mark_stopping now ∷ ops) =
    apply_all-last_stage (apply h (mark_stopping now)) ops
apply_all-last_stage h (mark_stopped now ∷ ops) =
    apply_all-last_stage (apply h (mark_stopped now)) ops
apply_all-last_stage h (mark_failed now ∷ ops) =
    apply_all-last_stage (apply h (mark_failed now)) ops
apply_all-last_stage h (take ∷ ops) = apply_all-last_stage (apply h take) ops

-- After any sequence of events and reads, the status, `ready` and `healthy` agree, an unread
-- change is the current snapshot, and a process that is not terminal is ready exactly if no
-- component is degraded and the stage of the snapshot is one of the three modes; and that stage is
-- the last one that was observed, or unset if none was.
pub apply_all-Inv :
    (now : ℕ) (ops : List Op)
    → let h = apply_all (new_health now) ops in
      Inv h × (h.snapshot.stage ≡ last_stage ops Stage.unset)
unfolding new_health
apply_all-Inv now ops = (
  apply_all-Inv_from (new_health now) ops (new_health-Inv now),
  apply_all-last_stage (new_health now) ops,
)

-- The health endpoint refuses other methods than GET and HEAD, and else answers 503 exactly for a
-- terminal status.
pub serve-status :
    (now : ℕ) (ops : List Op) (method : String)
    → let h = apply_all (new_health now) ops in
      (serve h method ≡ 405) × (method ≢ "GET") × (method ≢ "HEAD")
      ⊎ (serve h method ≡ 503) × IsTerminal h.snapshot.status
      ⊎ (serve h method ≡ 200) × ¬ IsTerminal h.snapshot.status
unfolding serve
serve-status now ops method =
    ground (arith, (apply_all-Inv now ops).0.healthy_iff, eq_iff method "GET", eq_iff method "HEAD")

-- What one event says of a component: that it is degraded, that it is not, or nothing.
abbrev pub verdict : Component → Op → Bool → Bool
verdict c (observe sequence stage mode reason now) before =
    if c == reconciler
    then (if is_settled stage then false else if is_stage_failed stage then true else before)
    else before
verdict c (retry d now) before = if c == d then true else before
verdict c (recovered d now) before = if c == d then false else before
verdict c _ before = before

-- The last word of a history on a component.
abbrev pub is_degraded : Component → List Op → Bool → Bool
is_degraded c [] before = before
is_degraded c (op ∷ ops) before = is_degraded c ops (verdict c op before)

contains-apply :
    (c : Component) (h : Health) (op : Op)
    → contains c (apply h op).degraded ≡ verdict c op (contains c h.degraded)
unfolding apply derive
contains-apply c h (observe sequence stage mode reason now) =
    ground (arith, contains-insert c reconciler h.degraded, contains-delete c reconciler h.degraded)
contains-apply c h (retry d now) = ground (arith, contains-insert c d h.degraded)
contains-apply c h (recovered d now) = ground (arith, contains-delete c d h.degraded)
contains-apply c h _ = refl

contains-apply_all :
    (c : Component) (h : Health) (ops : List Op)
    → contains c (apply_all h ops).degraded ≡ is_degraded c ops (contains c h.degraded)
unfolding apply_all
contains-apply_all c h [] = refl
contains-apply_all c h (op ∷ ops) =
    contains-apply_all c (apply h op) ops ∙ ap (is_degraded c ops) (contains-apply c h op)

-- The set of degraded components implements the history: a component is in it exactly if the last
-- event that speaks of it was a retry, or, for the reconciler, a failed stage, and not a recovery
-- or, for the reconciler, one of the three modes.
pub degraded-is_degraded :
    (c : Component) (now : ℕ) (ops : List Op)
    → contains c (apply_all (new_health now) ops).degraded ≡ is_degraded c ops false
unfolding new_health
degraded-is_degraded c now ops = contains-apply_all c (new_health now) ops
