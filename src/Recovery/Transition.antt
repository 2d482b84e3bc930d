-- ===== src/Recovery/Transition.antt =====
-- `runTransition`, `rollbackTransition`, `restorePreviousConnection`, `waitForConnection` and
-- `connectionActive` of internal/recovery/transitions.go. `netip` is a parameter.
pub mod Outcome
pub mod Accepted
pub mod Restore
mod Tests
use Prim.Native.String.{◌++◌}
use onboardd.Prelude.{
  ℕ, zero, suc, String, Bool, true, false, not, ◌&&◌, Option, none, some, List, [], ◌∷◌, any, ◌==◌,
  ◌!=◌, ℕ_eq, string_eq, if◌then◌else◌,
}
use onboardd.Prelude.Int.{ℤ}
use onboardd.GoError.{
  Error, new, wrap, join, deadline_exceeded, Result, ok, err, join_some, wrap_some,
}
use onboardd.Connectivity
use onboardd.Connectivity.{Requirement, is_internet}
use onboardd.NetworkManager.Types.{Role, Status, Activation, observation, device_state_activated}
use onboardd.NetworkManager.Settings.{InfrastructureOptions, AccessPointOptions}
use onboardd.Recovery.Addr.{Netip, Addr, addr_eq}
use onboardd.Recovery.Client.{
  Client, Run, create_checkpoint, activate_profile, wait_for_activation, status,
  finalize_transition, commit_checkpoint, rollback_checkpoint, delete_owned_profile,
  connect_infrastructure, start_access_point, check_connectivity,
}
use onboardd.Recovery.Plan.{Plan, connect, saved, access_point, Acceptance, policy, active_at}
use onboardd.Recovery.Exec.{Exec, ◌>>=◌, ◌>>◌, try_call, try_read, check}

abbrev parses_to : Addr → Result Addr → Bool
parses_to address (ok parsed) = parsed == address
parses_to address (err e) = false

abbrev requirement_text : Requirement → String
requirement_text Requirement.local = "local"
requirement_text Requirement.internet = "internet"
requirement_text (Requirement.other s) = s

module _ (netip : Netip) where
  unfoldable pub connection_active : Status → String → Addr → Bool
  connection_active s uuid address =
      s.device.state == device_state_activated
      && s.device.active_uuid == uuid
      && any (λ candidate. parses_to address (netip.parse_addr candidate)) s.device.ipv4_addresses

-- `errors.Join(cause, …)` with a cause that is not nil.
abbrev pub join_cause : Error → Option Error → Error
join_cause cause none = cause
join_cause cause (some e) = join cause e

module _ {W : Type 0} (client : Client W) (netip : Netip) where
  abbrev pub activate : Plan → Run W → Activation × Option Error × Run W
  activate plan r = elim plan.candidate [
    | connect options ↦ connect_infrastructure client options r
    | saved uuid ↦ activate_profile client plan.interface_name uuid r
    | access_point options ↦ start_access_point client options r
  ]

  -- The connectivity that the policy is held against: a fresh check if the Internet is required.
  abbrev fresh : Requirement → Status → Exec W Status
  fresh requirement s r =
      if is_internet requirement
      then (let (checked, r') = check_connectivity client r in
          elim checked [
            | ok value ↦ (ok (record s { connectivity = value }), r')
            | err e ↦ (err e, r')
          ])
      else (ok s, r)

  abbrev policy_error : Requirement → Status → Option Error
  policy_error requirement s =
      let result = Connectivity.evaluate requirement (observation s) in
      if result.accepted
      then none
      else some (
          new (
            "candidate does not satisfy "
            ++ (requirement_text requirement ++ (" requirement: " ++ result.reason))))

  unfoldable pub accept : Acceptance → Status → Activation → Exec W (Unit {0})
  accept (policy requirement) s a r =
      if s.device.active_uuid != a.uuid
      then (err (new ("candidate profile " ++ (a.uuid ++ " is not active"))), r)
      else (do s' ← fresh requirement s; check (policy_error requirement s')) r
  accept (active_at address) s a r =
      if connection_active netip s a.uuid address then (ok tt, r) else (
        err (
            new (
              "standalone profile "
              ++ (a.uuid ++ (" is not active at " ++ netip.address_text address)))),
        r,
      )

  -- What follows a successful activation in `runTransition`, last part first. Every failure is
  -- handed to `rollback_transition` with the same candidate.
  unfoldable pub record_intent : Plan → String → Activation → Exec W (Unit {0})
  record_intent plan checkpoint a = do
    try_call plan.messages.finalize
        (finalize_transition client plan.interface_name plan.role plan.ssid a.uuid)
    try_call plan.messages.commit (commit_checkpoint client checkpoint)

  unfoldable pub judge : Plan → String → Activation → Status → Exec W (Unit {0})
  judge plan checkpoint a s = do accept plan.acceptance s a; record_intent plan checkpoint a

  unfoldable pub confirm : Plan → String → Activation → Exec W (Unit {0})
  confirm plan checkpoint a = do
    try_call plan.messages.wait
        (wait_for_activation client a.active_path plan.interface_name plan.activation_wait)
    s ← try_read plan.messages.inspect (status client plan.interface_name)
    judge plan checkpoint a s

  abbrev pub is_active : Result Status → String → Addr → Bool
  is_active (ok s) uuid address = connection_active netip s uuid address
  is_active (err e) uuid address = false

  -- The loop polls until the connection is active or the context is done, which it is after
  -- `polls` ticks.
  unfoldable pub wait_for_connection : ℕ → String → String → Addr → Run W → Option Error × Run W
  wait_for_connection zero interface uuid address r =
      let (s, r') = status client interface r in
      if is_active s uuid address then (none, r') else (some deadline_exceeded, r')
  wait_for_connection (suc polls) interface uuid address r =
      let (s, r') = status client interface r in
      let rest = wait_for_connection polls interface uuid address r' in
      if is_active s uuid address then (none, r') else rest

  abbrev pub previous_path : Result Status → String → String
  previous_path (ok s) uuid =
      if s.device.active_uuid == uuid then s.device.active_connection else ""
  previous_path (err e) uuid = ""

  -- From the wait for the activation on.
  unfoldable pub await_previous : ℕ → Plan → String → Run W → Option Error × Run W
  await_previous polls plan path r =
      let (e, r') = wait_for_activation client path plan.interface_name plan.restoration_wait r in
      elim e [
        | some e ↦ (
          some (wrap ("wait for previous profile " ++ (plan.previous_uuid ++ " activation")) e),
          r',
        )
        | none ↦
            wait_for_connection polls plan.interface_name plan.previous_uuid plan.previous_address
              r'
      ]

  unfoldable pub restore_previous_connection : ℕ → Plan → Run W → Option Error × Run W
  restore_previous_connection polls plan r =
      let (s, r') = status client plan.interface_name r in
      if is_active s plan.previous_uuid plan.previous_address
      then (none, r')
      else (let path = previous_path s plan.previous_uuid in
          if path == ""
          then (let (a, e, r'') =
                activate_profile client plan.interface_name plan.previous_uuid r' in
              elim e [
                | some e ↦
                    (some (wrap ("reactivate previous profile " ++ plan.previous_uuid) e), r'')
                | none ↦ await_previous polls plan a.active_path r''
              ])
          else await_previous polls plan path r')

  -- The candidate is deleted if the plan made it and its UUID is known.
  unfoldable pub remove_candidate : Plan → String → Run W → Option Error × Run W
  remove_candidate plan uuid r =
      if plan.remove_rejected && uuid != ""
      then (let (e, r') = delete_owned_profile client uuid r in
          (wrap_some plan.messages.rejected e, r'))
      else (none, r)

  unfoldable pub rollback_transition : ℕ → Plan → String → String → Error → Run W → Error × Run W
  rollback_transition polls plan checkpoint uuid cause r =
      let (e, r') = rollback_checkpoint client checkpoint r in
      elim e [
        | some e ↦ (join cause (wrap "rollback NetworkManager checkpoint" e), r')
        | none ↦
            let (removed, r2) = remove_candidate plan uuid r' in
            let (restored, r3) = restore_previous_connection polls plan r2 in
            (
              join_cause cause (
                  join_some removed (wrap_some "confirm previous connection restoration" restored)),
              r3,
            )
      ]

  abbrev pub finish :
      ℕ → Plan → String → Activation → Result (Unit {0}) × Run W → Result Activation × Run W
  finish polls plan checkpoint a (ok done, r) = (ok a, r)
  finish polls plan checkpoint a (err cause, r) =
      let (e, r') = rollback_transition polls plan checkpoint a.uuid cause r in (err e, r')

  abbrev pub after_activate :
      ℕ → Plan → String → Activation × Option Error × Run W → Result Activation × Run W
  after_activate polls plan checkpoint (a, none, r) =
      finish polls plan checkpoint a (confirm plan checkpoint a r)
  after_activate polls plan checkpoint (a, some e, r) =
      finish polls plan checkpoint a (err (wrap plan.messages.activate e), r)

  abbrev pub after_create : ℕ → Plan → Result String × Run W → Result Activation × Run W
  after_create polls plan (ok checkpoint, r) =
      after_activate polls plan checkpoint (activate plan r)
  after_create polls plan (err e, r) = (err (wrap plan.messages.checkpoint e), r)

  unfoldable pub run_transition : ℕ → Plan → Run W → Result Activation × Run W
  run_transition polls plan r =
      after_create polls plan (create_checkpoint client plan.interface_name plan.rollback_after r)
