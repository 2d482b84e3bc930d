-- ===== src/Recovery/Transition/Restore.antt =====
-- What `restorePreviousConnection` has seen when it reports success.
use onboardd.Prelude.{ℕ, zero, suc, String, true, none, List, ◌∷◌, string_eq, ◌≡◌, arith}
use onboardd.GoError.{ok}
use onboardd.Recovery.Addr.{Netip, Addr}
use onboardd.Recovery.Client.{
  Client, Run, Call, inspected, status, activate_profile, wait_for_activation,
}
use onboardd.Recovery.Plan.{Plan}
use onboardd.Recovery.Transition.{
  is_active, previous_path, connection_active, wait_for_connection, await_previous,
  restore_previous_connection,
}

module _ {W : Type 0} (client : Client W) (netip : Netip) where
  -- The last call has read a status in which the profile is active at its address.
  abbrev pub SeenActive : String → Addr → List Call → Type 0
  SeenActive uuid address (inspected (ok s) ∷ calls) = connection_active netip s uuid address ≡ true
  SeenActive uuid address _ = ⊥

  status-SeenActive :
      (interface uuid : String) (address : Addr) (r : Run W)
      → is_active client netip (status client interface r).0 uuid address ≡ true
      → SeenActive uuid address (status client interface r).1.calls
  unfolding status
  status-SeenActive interface uuid address r h = ground arith

  wait_for_connection-SeenActive :
      (polls : ℕ) (interface uuid : String) (address : Addr) (r : Run W)
      → (wait_for_connection client netip polls interface uuid address r).0 ≡ none
      → SeenActive uuid address
          (wait_for_connection client netip polls interface uuid address r).1.calls
  unfolding wait_for_connection
  wait_for_connection-SeenActive zero interface uuid address r h =
      ground (arith, status-SeenActive interface uuid address r)
  wait_for_connection-SeenActive (suc polls) interface uuid address r h =
      let s = status client interface r in
      ground (
        arith,
        status-SeenActive interface uuid address r,
        wait_for_connection-SeenActive polls interface uuid address s.1,
      )

  await_previous-SeenActive :
      (polls : ℕ) (plan : Plan) (path : String) (r : Run W)
      → (await_previous client netip polls plan path r).0 ≡ none
      → SeenActive plan.previous_uuid plan.previous_address
          (await_previous client netip polls plan path r).1.calls
  unfolding await_previous
  await_previous-SeenActive polls plan path r h =
      let (e, r') = wait_for_activation client path plan.interface_name plan.restoration_wait r in
      ground (
        arith,
        wait_for_connection-SeenActive polls plan.interface_name plan.previous_uuid
            plan.previous_address r',
      )

  -- If `restore_previous_connection` reports no error, then the last thing it did was to read a
  -- status in which the previous profile is active at its previous address.
  pub restore_previous_connection-SeenActive :
      (polls : ℕ) (plan : Plan) (r : Run W)
      → (restore_previous_connection client netip polls plan r).0 ≡ none
      → SeenActive plan.previous_uuid plan.previous_address
          (restore_previous_connection client netip polls plan r).1.calls
  unfolding restore_previous_connection
  restore_previous_connection-SeenActive polls plan r h =
      let (s, r') = status client plan.interface_name r in
      let path = previous_path client netip s plan.previous_uuid in
      let (a, e, r'') = activate_profile client plan.interface_name plan.previous_uuid r' in
      ground (
        arith,
        status-SeenActive plan.interface_name plan.previous_uuid plan.previous_address r,
        await_previous-SeenActive polls plan path r',
        await_previous-SeenActive polls plan a.active_path r'',
      )
