-- ===== src/Recovery/Transition/Outcome.antt =====
-- Every protected transition follows the checkpoint protocol, to its end.
use onboardd.Prelude.{
  ℕ, zero, suc, String, inl, inr, Option, none, some, [], ◌∷◌, string_eq, eq_iff, ◌≡◌, ◌⊎◌, ap,
  arith,
}
use onboardd.GoError.{Error, wrap, Result, ok, err}
use onboardd.NetworkManager.Types.{Status, Activation, role_eq, role_beq_iff}
use onboardd.Recovery.Addr.{Netip, Addr}
use onboardd.Recovery.Client.{
  Client, Run, created, create_checkpoint, activate_profile, wait_for_activation, status,
  finalize_transition, commit_checkpoint, rollback_checkpoint, delete_owned_profile,
  connect_infrastructure, start_access_point, check_connectivity,
}
use onboardd.Recovery.Protocol.{
  Phase, trial, decided, kept, undone, stuck, unprotected, Terms, phase,
}
use onboardd.Prelude.Int.{ℤ}
use onboardd.Recovery.Exec.{Exec, continue, try_call, try_read}
use onboardd.Recovery.Plan.{Plan, Acceptance, policy, active_at}
use onboardd.Recovery.Transition.{
  previous_path, activate, accept, record_intent, judge, confirm, wait_for_connection,
  await_previous, restore_previous_connection, remove_candidate, rollback_transition, finish,
  after_activate, after_create, run_transition,
}

-- The terms of a plan.
abbrev pub terms : Plan → Terms
terms plan = record {
  role = plan.role;
  ssid = plan.ssid;
  previous = plan.previous_uuid;
  may_delete = plan.remove_rejected;
}

module _ {W : Type 0} (client : Client W) (netip : Netip) (plan : Plan) where
  -- The phase that a run has reached.
  abbrev at : Run W → Phase
  at r = phase (terms plan) r.calls

  accept-trial :
      (acceptance : Acceptance) (s : Status) (a : Activation) (r : Run W) (cp uuid : String)
      → at r ≡ trial cp uuid
      → at (accept client netip acceptance s a r).1 ≡ trial cp uuid
  unfolding accept check_connectivity
  accept-trial (policy requirement) s a r cp uuid h = ground arith
  accept-trial (active_at address) s a r cp uuid h = ground arith

  -- The trial of a candidate ends with its intent kept, or with an error behind the checkpoint.
  abbrev Tried : String → String → Result (Unit {0}) × Run W → Type 0
  Tried cp uuid (ok done, r) = at r ≡ kept uuid
  Tried cp uuid (err e, r) = (at r ≡ trial cp uuid) ⊎ (at r ≡ decided cp uuid)

  wait-trial :
      (r : Run W) (cp uuid path : String) (wait : ℤ)
      → at r ≡ trial cp uuid
      → at (wait_for_activation client path plan.interface_name wait r).1 ≡ trial cp uuid
  unfolding wait_for_activation
  wait-trial r cp uuid path wait h = ground arith

  status-trial :
      (r : Run W) (cp uuid : String)
      → at r ≡ trial cp uuid
      → at (status client plan.interface_name r).1 ≡ trial cp uuid
  unfolding status
  status-trial r cp uuid h = ground arith

  -- A step that leaves the trial going, and what follows it.
  then-Tried :
      {A : Type 0} (cp uuid : String) (x : Result A × Run W) (f : A → Exec W (Unit {0}))
      → at x.1 ≡ trial cp uuid
      → ((a : A) (r : Run W) → at r ≡ trial cp uuid → Tried cp uuid (f a r))
      → Tried cp uuid (continue x f)
  then-Tried cp uuid (ok a, r) f h next = next a r h
  then-Tried cp uuid (err e, r) f h next = inl h

  record_intent-Tried :
      (cp : String) (a : Activation) (r : Run W)
      → at r ≡ trial cp a.uuid
      → Tried cp a.uuid (record_intent client netip plan cp a r)
  unfolding record_intent finalize_transition commit_checkpoint
  record_intent-Tried cp a r h = ground (
    arith,
    role_beq_iff plan.role plan.role,
    eq_iff plan.ssid plan.ssid,
    eq_iff a.uuid a.uuid,
    eq_iff cp cp,
  )

  judge-Tried :
      (cp : String) (a : Activation) (s : Status) (r : Run W)
      → at r ≡ trial cp a.uuid
      → Tried cp a.uuid (judge client netip plan cp a s r)
  unfolding judge
  judge-Tried cp a s r h =
      then-Tried cp a.uuid _ _ (accept-trial plan.acceptance s a r cp a.uuid h)
        (λ _ r'. record_intent-Tried cp a r')

  confirm-Tried :
      (cp : String) (a : Activation) (r : Run W)
      → at r ≡ trial cp a.uuid
      → Tried cp a.uuid (confirm client netip plan cp a r)
  unfolding confirm
  confirm-Tried cp a r h =
      then-Tried cp a.uuid
        (try_call plan.messages.wait
          (wait_for_activation client a.active_path plan.interface_name plan.activation_wait) r)
        (λ _. inspect_and_judge) (wait-trial r cp a.uuid a.active_path plan.activation_wait h)
        (λ _ r' h'.
          then-Tried cp a.uuid
            (try_read plan.messages.inspect (status client plan.interface_name) r')
            (judge client netip plan cp a) (status-trial r' cp a.uuid h') (judge-Tried cp a))
    where
      inspect_and_judge : Exec W (Unit {0})
      inspect_and_judge r' =
          continue (try_read plan.messages.inspect (status client plan.interface_name) r')
            (judge client netip plan cp a)

  -- The phases behind a rolled-back checkpoint are kept by the restoration.
  status-undone :
      (r : Run W) (uuid : String)
      → at r ≡ undone uuid
      → at (status client plan.interface_name r).1 ≡ undone uuid
  unfolding status
  status-undone r uuid h = ground arith

  wait_for_connection-undone :
      (polls : ℕ) (previous : String) (address : Addr) (r : Run W) (uuid : String)
      → at r ≡ undone uuid
      → at (wait_for_connection client netip polls plan.interface_name previous address r).1
        ≡ undone uuid
  unfolding wait_for_connection
  wait_for_connection-undone zero previous address r uuid h = ground (arith, status-undone r uuid h)
  wait_for_connection-undone (suc polls) previous address r uuid h =
      let s = status client plan.interface_name r in
      ground
        (arith, status-undone r uuid h, wait_for_connection-undone polls previous address s.1 uuid)

  await_previous-undone :
      (polls : ℕ) (path : String) (r : Run W) (uuid : String)
      → at r ≡ undone uuid
      → at (await_previous client netip polls plan path r).1 ≡ undone uuid
  unfolding await_previous wait_for_activation
  await_previous-undone polls path r uuid h =
      let (e, r') = wait_for_activation client path plan.interface_name plan.restoration_wait r in
      ground
        (arith, wait_for_connection-undone polls plan.previous_uuid plan.previous_address r' uuid)

  restore-undone :
      (polls : ℕ) (r : Run W) (uuid : String)
      → at r ≡ undone uuid
      → at (restore_previous_connection client netip polls plan r).1 ≡ undone uuid
  unfolding restore_previous_connection activate_profile
  restore-undone polls r uuid h =
      let (s, r') = status client plan.interface_name r in
      let path = previous_path client netip s plan.previous_uuid in
      let (a, e, r'') = activate_profile client plan.interface_name plan.previous_uuid r' in
      ground (
        arith,
        status-undone r uuid h,
        await_previous-undone polls path r' uuid,
        await_previous-undone polls a.active_path r'' uuid,
        eq_iff plan.previous_uuid plan.previous_uuid,
      )

  remove_candidate-undone :
      (r : Run W) (uuid : String)
      → at r ≡ undone uuid
      → at (remove_candidate client netip plan uuid r).1 ≡ undone uuid
  unfolding remove_candidate delete_owned_profile
  remove_candidate-undone r uuid h = ground (arith, eq_iff uuid uuid)

  -- A rolled-back transition ends behind its checkpoint, or with the rollback that failed.
  abbrev RolledBack : String → Run W → Type 0
  RolledBack uuid r = (at r ≡ undone uuid) ⊎ (at r ≡ stuck)

  rollback-RolledBack :
      (polls : ℕ) (cp uuid : String) (cause : Error) (r : Run W)
      → (at r ≡ trial cp uuid) ⊎ (at r ≡ decided cp uuid)
      → RolledBack uuid (rollback_transition client netip polls plan cp uuid cause r).1
  unfolding rollback_transition rollback_checkpoint
  rollback-RolledBack polls cp uuid cause r h =
      let (e, r') = rollback_checkpoint client cp r in
      let removed = remove_candidate client netip plan uuid r' in
      ground
        (arith, remove_candidate-undone r' uuid, restore-undone polls removed.1 uuid, eq_iff cp cp)

  -- How a transition ends.
  abbrev pub Ended : Result Activation × Run W → Type 0
  Ended (ok a, r) = at r ≡ kept a.uuid
  Ended (err e, r) = (at r ≡ unprotected) ⊎ ((uuid : String) × RolledBack uuid r)

  finish-Ended :
      (polls : ℕ) (cp : String) (a : Activation) (x : Result (Unit {0}) × Run W)
      → Tried cp a.uuid x
      → Ended (finish client netip polls plan cp a x)
  finish-Ended polls cp a (ok done, r) h = h
  finish-Ended polls cp a (err e, r) h = inr (a.uuid, rollback-RolledBack polls cp a.uuid e r h)

  activate-trial :
      (r : Run W) (cp uuid : String)
      → at r ≡ trial cp uuid
      → let (a, e, r') = activate client netip plan r in at r' ≡ trial cp a.uuid
  unfolding activate_profile connect_infrastructure start_access_point
  activate-trial r cp uuid h = ground arith

  after_activate-Ended :
      (polls : ℕ) (cp : String) (x : Activation × Option Error × Run W)
      → at x.2 ≡ trial cp x.0.uuid
      → Ended (after_activate client netip polls plan cp x)
  after_activate-Ended polls cp (a, none, r) h = finish-Ended polls cp a _ (confirm-Tried cp a r h)
  after_activate-Ended polls cp (a, some e, r) h =
      finish-Ended polls cp a (err (wrap plan.messages.activate e), r) (inl h)

  after_create-Ended :
      (polls : ℕ) (x : Result String × Run W)
      → (x.1.calls ≡ created x.0 ∷ [])
      → Ended (after_create client netip polls plan x)
  after_create-Ended polls (ok cp, r) h =
      after_activate-Ended polls cp (activate client netip plan r)
        (activate-trial r cp "" (ap (phase (terms plan)) h))
  after_create-Ended polls (err e, r) h = inl (ap (phase (terms plan)) h)

  -- Every run of `run_transition` that starts with no call made follows the checkpoint protocol to
  -- its end. If it returns the activation `a`, its last call committed the checkpoint, after the
  -- intent for exactly `a.uuid` was recorded. If it returns an error, then either no checkpoint
  -- could be made and nothing else was called, or the checkpoint was rolled back, and only the
  -- candidate was deleted and only the previous profile activated since, or the rollback failed.
  pub run_transition-Ended :
      (polls : ℕ) (r : Run W) → r.calls ≡ [] → Ended (run_transition client netip polls plan r)
  unfolding run_transition create_checkpoint
  run_transition-Ended polls r h =
      let x = create_checkpoint client plan.interface_name plan.rollback_after r in
      after_create-Ended polls x (ap (λ calls. created x.0 ∷ calls) h)
