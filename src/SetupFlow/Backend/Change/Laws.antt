-- ===== src/SetupFlow/Backend/Change/Laws.antt =====
-- What a change of the network guarantees to the setup flow (internal/setupflow/network.go).
use onboardd.Prelude.{
  ℕ, String, Bool, true, false, Option, none, List, ◌∷◌, string_eq, ◌≡◌, ◌≢◌, ◌⊎◌,
}
use onboardd.GoError.{Error, Result, ok, err}
use onboardd.NetworkManager.Types.{Activation}
use onboardd.NetworkManager.Settings.{Std}
use onboardd.Recovery.Addr.{Netip, Addr}
use onboardd.Recovery.Client.{Client, Run, Call, committed}
use onboardd.Recovery.Plan.{Plan}
use onboardd.Recovery.Attempts.{Outcome, returns, panics}
use onboardd.Captive.Manager.{Manager, Answers}
use onboardd.SetupFlow.Backend.{NetworkOptions}
use onboardd.SetupFlow.Backend.Change.{NetworkClient, Session, exit_captive}

-- The last call of a log committed a checkpoint.
abbrev pub is_committed : List Call → Bool
is_committed (committed checkpoint none ∷ calls) = true
is_committed _ = false

module _ {W : Type 0} (client : Client W) (network : NetworkClient W) (netip : Netip) (std : Std)
    (parse_prefix : String → Option Addr) (polls : ℕ) (o : NetworkOptions) where
  abbrev Told : Result Activation × Run W → Type 0
  Told (ok a, r) = is_committed r.calls ≡ true
  Told (err e, r) = is_committed r.calls ≡ false

  -- Captive mode is left after a commit, and only then; otherwise there is an error.
  abbrev pub Safe : Answers → Option Manager → Outcome (Option Error × Session W) → Type 0
  Safe answers m panics = ⊥
  Safe answers m (returns (e, t)) =
      ((is_committed t.run.calls ≡ false) × (e ≢ none) × (t.manager ≡ m))
      ⊎ ((is_committed t.run.calls ≡ true)
          × (e ≡ (exit_captive m answers).0)
          × (t.manager ≡ (exit_captive m answers).1))
