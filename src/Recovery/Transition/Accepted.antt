-- ===== src/Recovery/Transition/Accepted.antt =====
-- What a protected transition has seen before it keeps its candidate.
use onboardd.Prelude.{
  ℕ, String, true, false, Option, none, some, List, ◌∷◌, string_eq, eq_iff, refl, subst, ◌≡◌, arith,
}
use onboardd.GoError.{Error, Result, ok, err, ok-injective}
use onboardd.Connectivity
use onboardd.Connectivity.{Requirement, is_internet}
use onboardd.NetworkManager.Types.{Status, Activation, observation}
use onboardd.Recovery.Addr.{Netip}
use onboardd.Recovery.Client.{
  Client, Run, Call, inspected, checked, finalized, committed, create_checkpoint, status,
  wait_for_activation, finalize_transition, commit_checkpoint, check_connectivity,
}
use onboardd.Recovery.Exec.{continue, to_result, wrap_result, try_read}
use onboardd.Recovery.Plan.{Plan, Acceptance, policy, active_at}
use onboardd.Recovery.Transition.{
  connection_active, activate, accept, record_intent, judge, confirm, finish, after_activate,
  after_create, run_transition,
}

module _ {W : Type 0} (client : Client W) (netip : Netip) where
  -- The last calls show what the acceptance asks for: the candidate is the active profile and
  -- meets the requirement, with a fresh check of the Internet if that is required; or the access
  -- point is active at its address.
  abbrev pub Judged : Acceptance → Activation → List Call → Type 0
  Judged (policy requirement) a (inspected (ok s) ∷ calls) =
      (s.device.active_uuid ≡ a.uuid)
      × (is_internet requirement ≡ false)
      × ((Connectivity.evaluate requirement (observation s)).accepted ≡ true)
  Judged (policy requirement) a (checked (ok value) ∷ inspected (ok s) ∷ calls) =
      (s.device.active_uuid ≡ a.uuid)
      × ((Connectivity.evaluate requirement
            (observation (record s { connectivity = value }))).accepted
          ≡ true)
  Judged (active_at address) a (inspected (ok s) ∷ calls) =
      connection_active netip s a.uuid address ≡ true
  Judged _ a _ = ⊥

  accept-Judged :
      (acceptance : Acceptance) (s : Status) (a : Activation) (r : Run W) (calls : List Call)
      → r.calls ≡ inspected (ok s) ∷ calls
      → (accept client netip acceptance s a r).0 ≡ ok tt
      → Judged acceptance a (accept client netip acceptance s a r).1.calls
  unfolding accept check_connectivity
  accept-Judged (policy requirement) s a r calls h e =
      ground (arith, eq_iff s.device.active_uuid a.uuid)
  accept-Judged (active_at address) s a r calls h e = ground arith

  -- The last two calls recorded the intent for the activation and committed the checkpoint.
  abbrev pub Kept : Plan → Activation → List Call → Type 0
  Kept plan a (committed cp none ∷ finalized role ssid uuid none ∷ calls) =
      (role ≡ plan.role) × (ssid ≡ plan.ssid) × (uuid ≡ a.uuid) × Judged plan.acceptance a calls
  Kept plan a _ = ⊥

  record_intent-Kept :
      (plan : Plan) (cp : String) (a : Activation) (r : Run W)
      → Judged plan.acceptance a r.calls
      → (record_intent client netip plan cp a r).0 ≡ ok tt
      → Kept plan a (record_intent client netip plan cp a r).1.calls
  unfolding record_intent finalize_transition commit_checkpoint
  record_intent-Kept plan cp a r h e = ground arith

  judge-Kept :
      (plan : Plan) (cp : String) (a : Activation) (s : Status) (r : Run W) (calls : List Call)
      → r.calls ≡ inspected (ok s) ∷ calls
      → (judge client netip plan cp a s r).0 ≡ ok tt
      → Kept plan a (judge client netip plan cp a s r).1.calls
  unfolding judge
  judge-Kept plan cp a s r calls h e =
      let (result, r') = accept client netip plan.acceptance s a r in
      ground (arith, accept-Judged plan.acceptance s a r calls h, record_intent-Kept plan cp a r')

  inspect-Kept :
      (plan : Plan) (cp : String) (a : Activation) (x : Result Status × Run W) (calls : List Call)
      → x.1.calls ≡ inspected x.0 ∷ calls
      → (continue (wrap_result plan.messages.inspect x.0, x.1) (judge client netip plan cp a)).0
        ≡ ok tt
      → Kept plan a
          (continue
            (wrap_result plan.messages.inspect x.0, x.1)
            (judge client netip plan cp a)).1.calls
  inspect-Kept plan cp a (ok s, r) calls h e = judge-Kept plan cp a s r calls h e
  inspect-Kept plan cp a (err error, r) calls h e = ground arith

  -- What `confirm` does with the answer of the wait.
  abbrev after_wait : Plan → String → Activation → Option Error → Run W → Result (Unit {0}) × Run W
  after_wait plan cp a e r =
      continue (to_result plan.messages.wait e, r)
        (λ _ r'.
          continue (try_read plan.messages.inspect (status client plan.interface_name) r')
            (judge client netip plan cp a))

  after_wait-Kept :
      (plan : Plan) (cp : String) (a : Activation) (e : Option Error) (r : Run W)
      → (after_wait plan cp a e r).0 ≡ ok tt
      → Kept plan a (after_wait plan cp a e r).1.calls
  unfolding status
  after_wait-Kept plan cp a none r h =
      inspect-Kept plan cp a (status client plan.interface_name r) r.calls refl h
  after_wait-Kept plan cp a (some e) r h = ground arith

  -- A candidate that is confirmed leaves these calls.
  confirm-Kept :
      (plan : Plan) (cp : String) (a : Activation) (r : Run W)
      → (confirm client netip plan cp a r).0 ≡ ok tt
      → Kept plan a (confirm client netip plan cp a r).1.calls
  unfolding confirm
  confirm-Kept plan cp a r h =
      let (e, r') =
        wait_for_activation client a.active_path plan.interface_name plan.activation_wait r in
      after_wait-Kept plan cp a e r' h

  -- `x` is the activation that was kept, if any.
  abbrev KeptIfOk : Plan → Result Activation × Run W → Type 0
  KeptIfOk plan (ok a, r) = Kept plan a r.calls
  KeptIfOk plan (err e, r) = Unit {0}

  finish-KeptIfOk :
      (polls : ℕ) (plan : Plan) (cp : String) (a : Activation) (x : Result (Unit {0}) × Run W)
      → (x.0 ≡ ok tt → Kept plan a x.1.calls)
      → KeptIfOk plan (finish client netip polls plan cp a x)
  finish-KeptIfOk polls plan cp a (ok tt, r) h = h refl
  finish-KeptIfOk polls plan cp a (err e, r) h = tt

  after_activate-KeptIfOk :
      (polls : ℕ) (plan : Plan) (cp : String) (x : Activation × Option Error × Run W)
      → KeptIfOk plan (after_activate client netip polls plan cp x)
  after_activate-KeptIfOk polls plan cp (a, none, r) =
      finish-KeptIfOk polls plan cp a (confirm client netip plan cp a r) (confirm-Kept plan cp a r)
  after_activate-KeptIfOk polls plan cp (a, some e, r) = tt

  after_create-KeptIfOk :
      (polls : ℕ) (plan : Plan) (x : Result String × Run W)
      → KeptIfOk plan (after_create client netip polls plan x)
  after_create-KeptIfOk polls plan (ok cp, r) =
      after_activate-KeptIfOk polls plan cp (activate client netip plan r)
  after_create-KeptIfOk polls plan (err e, r) = tt

  ok-Kept :
      (plan : Plan) (x : Result Activation × Run W) (a : Activation)
      → KeptIfOk plan x
      → x.0 ≡ ok a
      → Kept plan a x.1.calls
  ok-Kept plan (ok b, r) a h e = subst (λ c. Kept plan c r.calls) (ok-injective e) h
  ok-Kept plan (err error, r) a h e = ground arith

  -- If `run_transition` returns the activation `a`, then its last calls recorded the plan's intent
  -- for `a.uuid` and committed the checkpoint, and the calls before them show that the candidate
  -- was the active profile and met the acceptance of the plan: for an Internet requirement with
  -- the answer of a fresh connectivity check.
  pub run_transition-Kept :
      (polls : ℕ) (plan : Plan) (r : Run W) (a : Activation)
      → (run_transition client netip polls plan r).0 ≡ ok a
      → Kept plan a (run_transition client netip polls plan r).1.calls
  unfolding run_transition
  run_transition-Kept polls plan r a h =
      ok-Kept plan
        (after_create client netip polls plan
          (create_checkpoint client plan.interface_name plan.rollback_after r))
        a
        (after_create-KeptIfOk polls plan
          (create_checkpoint client plan.interface_name plan.rollback_after r))
        h
