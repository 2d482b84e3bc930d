-- ===== src/Recovery/Client.antt =====
-- The interfaces `transitionClient`, `networkManager` and `standaloneNetworkManager` of
-- internal/recovery/transitions.go. What NetworkManager does behind them is a parameter: each
-- method maps its world to an answer and a new world. `Run` adds the log of the calls that were
-- made, with their answers, the last call first.
use onboardd.Prelude.{ℕ, String, Option, List, ◌∷◌}
use onboardd.Prelude.Int.{ℤ}
use onboardd.GoError.{Error, Result}
use onboardd.NetworkManager.Types.{Role, Status, Activation}
use onboardd.NetworkManager.Settings.{InfrastructureOptions, AccessPointOptions}

-- An activation may fail and still name a profile that it has added.
pub record Client (W : Type 0) : Type 0 where
  pub create_checkpoint : String → ℤ → W → Result String × W
  pub activate_profile : String → String → W → Activation × Option Error × W
  pub wait_for_activation : String → String → ℤ → W → Option Error × W
  pub status : String → W → Result Status × W
  pub finalize_transition : String → Role → String → String → W → Option Error × W
  pub commit_checkpoint : String → W → Option Error × W
  pub rollback_checkpoint : String → W → Option Error × W
  pub delete_owned_profile : String → W → Option Error × W
  pub connect_infrastructure : InfrastructureOptions → W → Activation × Option Error × W
  pub start_access_point : AccessPointOptions → W → Activation × Option Error × W
  pub check_connectivity : W → Result ℕ × W

pub data Call : Type 0 where
  created : Result String → Call
  activated : String → Activation → Option Error → Call
  connected : InfrastructureOptions → Activation → Option Error → Call
  started : AccessPointOptions → Activation → Option Error → Call
  waited : String → Option Error → Call
  inspected : Result Status → Call
  checked : Result ℕ → Call
  finalized : Role → String → String → Option Error → Call
  committed : String → Option Error → Call
  rolled_back : String → Option Error → Call
  deleted : String → Option Error → Call

pub record Run (W : Type 0) : Type 0 where
  pub world : W
  pub calls : List Call

abbrev pub log {ℓ} : {W : Type 0} {A : Type ℓ} → A × W → List Call → (A → Call) → A × Run W
log (a, w) calls call = (a, record { world = w; calls = call a ∷ calls })

module _ {W : Type 0} (c : Client W) where
  unfoldable pub create_checkpoint : String → ℤ → Run W → Result String × Run W
  create_checkpoint interface after r =
      log (c.create_checkpoint interface after r.world) r.calls created

  unfoldable pub wait_for_activation : String → String → ℤ → Run W → Option Error × Run W
  wait_for_activation path interface wait r =
      log (c.wait_for_activation path interface wait r.world) r.calls (waited path)

  unfoldable pub status : String → Run W → Result Status × Run W
  status interface r = log (c.status interface r.world) r.calls inspected

  unfoldable pub check_connectivity : Run W → Result ℕ × Run W
  check_connectivity r = log (c.check_connectivity r.world) r.calls checked

  unfoldable pub finalize_transition :
      String → Role → String → String → Run W → Option Error × Run W
  finalize_transition interface role ssid uuid r =
      log (c.finalize_transition interface role ssid uuid r.world) r.calls
        (finalized role ssid uuid)

  unfoldable pub commit_checkpoint : String → Run W → Option Error × Run W
  commit_checkpoint path r = log (c.commit_checkpoint path r.world) r.calls (committed path)

  unfoldable pub rollback_checkpoint : String → Run W → Option Error × Run W
  rollback_checkpoint path r = log (c.rollback_checkpoint path r.world) r.calls (rolled_back path)

  unfoldable pub delete_owned_profile : String → Run W → Option Error × Run W
  delete_owned_profile uuid r = log (c.delete_owned_profile uuid r.world) r.calls (deleted uuid)

  unfoldable pub activate_profile : String → String → Run W → Activation × Option Error × Run W
  activate_profile interface uuid r =
      let (a, e, w) = c.activate_profile interface uuid r.world in
      (a, e, record { world = w; calls = activated uuid a e ∷ r.calls })

  unfoldable pub connect_infrastructure :
      InfrastructureOptions → Run W → Activation × Option Error × Run W
  connect_infrastructure options r =
      let (a, e, w) = c.connect_infrastructure options r.world in
      (a, e, record { world = w; calls = connected options a e ∷ r.calls })

  unfoldable pub start_access_point : AccessPointOptions → Run W → Activation × Option Error × Run W
  start_access_point options r =
      let (a, e, w) = c.start_access_point options r.world in
      (a, e, record { world = w; calls = started options a e ∷ r.calls })
