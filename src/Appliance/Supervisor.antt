-- ===== src/Appliance/Supervisor.antt =====
-- `Supervisor.Run` of internal/appliance/controller.go: a bounded number of restarts.
-- What the supervised runner, the context and the waiter answer in round `n` is `attempts n`. The
-- loop takes fuel; `max_restarts + 1` rounds are enough, as Supervisor/Laws shows.
pub mod Laws
mod Tests
use onboardd.Prelude.{
  ℕ, zero, suc, ◌+◌, String, Bool, true, false, ◌||◌, Option, none, some, List, [], ◌∷◌, leb,
  if◌then◌else◌,
}
use onboardd.GoError.{Error, wrap, is_terminal}

pub record Attempt : Type 0 where
  pub result : Option Error  -- of runner.Run
  pub cancelled : Bool  -- ctx.Err() != nil after it
  pub wait : Option Error  -- of waiter.Wait
  pub wait_cancelled : Bool  -- ctx.Err() != nil after that

-- `retries` are the calls of `OnRetry`, the last one first.
pub record Outcome : Type 0 where
  pub runs : ℕ
  pub retries : List ℕ
  pub result : Option Error

module _ (max_restarts : ℕ) (attempts : ℕ → Attempt) where
  -- `next` is the rest of the loop.
  abbrev pub after_wait : Attempt → ℕ → List ℕ → Option Outcome → Option Outcome
  after_wait a restarts retries next = elim a.wait [
    | some e ↦ some (record {
      runs = restarts + 1;
      retries = retries;
      result =
          if a.wait_cancelled
          then none
          else some (wrap "wait to restart appliance reconciliation" e);
    })
    | none ↦
        if a.wait_cancelled
        then some (record { runs = restarts + 1; retries = retries; result = none })
        else next
  ]

  abbrev pub after_failure : Attempt → Error → ℕ → List ℕ → Option Outcome → Option Outcome
  after_failure a e restarts retries next =
      if a.cancelled
      then some (record { runs = restarts + 1; retries = retries; result = none })
      else if is_terminal e
      then some (record { runs = restarts + 1; retries = retries; result = some e })
      else if leb max_restarts restarts
      then some (record {
        runs = restarts + 1;
        retries = retries;
        result = some (wrap "appliance recovery exhausted" e);
      })
      else after_wait a restarts ((restarts + 1) ∷ retries) next

  loop : ℕ → ℕ → List ℕ → Option Outcome
  loop zero restarts retries = none
  loop (suc fuel) restarts retries =
      let a = attempts restarts in
      let next = loop fuel (restarts + 1) ((restarts + 1) ∷ retries) in
      elim a.result [
        | none ↦ some (record { runs = restarts + 1; retries = retries; result = none })
        | some e ↦ after_failure a e restarts retries next
      ]

  unfoldable pub run : Option Outcome
  unfolding loop
  run = loop (max_restarts + 1) 0 []
