-- ===== src/Appliance/Supervisor/Tests.antt =====
-- Tests of `Supervisor.Run` of internal/appliance/controller.go.
use onboardd.Prelude.{ℕ, none, some, false, [], ◌∷◌, refl, ◌≡◌}
use onboardd.GoError.{new, wrap, is_terminal}
use onboardd.Appliance.Supervisor.{Attempt, Outcome, run}
use onboardd.Appliance.Supervisor.Laws.{Explains, run-Explains}

-- The runner always fails.
abbrev always_fails : ℕ → Attempt
always_fails n = record {
  result = some (new "D-Bus");
  cancelled = false;
  wait = none;
  wait_cancelled = false;
}

two_restarts :
    run 2 always_fails
    ≡ some (record {
      runs = 3;
      retries = 2 ∷ 1 ∷ [];
      result = some (wrap "appliance recovery exhausted" (new "D-Bus"));
    })
unfolding run is_terminal
two_restarts = refl

run-Explains_example : (o : Outcome) × (run 2 always_fails ≡ some o) × Explains 2 always_fails o
run-Explains_example = run-Explains 2 always_fails
