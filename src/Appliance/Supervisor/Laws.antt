-- ===== src/Appliance/Supervisor/Laws.antt =====
-- The supervisor returns, within its budget, and with which result.
use onboardd.Prelude.{
  ℕ, zero, suc, ◌+◌, ◌≤◌, ◌<◌, true, Option, none, some, Option-cases, Bool-cases, if_intro, leb,
  inl, inr, List, [], ◌∷◌, refl, ◌≡◌, ◌⊎◌, arith,
}
use native.Mathlib.Numerals.{add-one}
use onboardd.GoError.{Error, wrap, is_terminal}
use onboardd.Appliance.Supervisor.{Attempt, Outcome, after_wait, after_failure, loop, run}

-- n, …, 2, 1
abbrev pub countdown : ℕ → List ℕ
countdown zero = []
countdown (suc n) = suc n ∷ countdown n

countdown_step : (n : ℕ) → (n + 1) ∷ countdown n ≡ countdown (n + 1)
countdown_step n = rw add-one

-- Why the supervisor returns what it returns, with `a` the answers to the last run.
abbrev pub Why : ℕ → ℕ → Attempt → Option Error → Type 0
Why max_restarts last a none = (a.result ≡ none) ⊎ (a.cancelled ≡ true) ⊎ (a.wait_cancelled ≡ true)
Why max_restarts last a (some r) =
    (e : Error) × (((a.result ≡ some e) × (is_terminal e ≡ true) × (r ≡ e))
      ⊎ ((a.result ≡ some e) × (last ≡ max_restarts) × (r ≡ wrap "appliance recovery exhausted" e))
      ⊎ ((a.wait ≡ some e) × (r ≡ wrap "wait to restart appliance reconciliation" e)))

-- `last` is the number of restarts, which `OnRetry` was told of in turn; one more call of it stands
-- before a wait that was given up.
pub record Explains (max_restarts : ℕ) (attempts : ℕ → Attempt) (o : Outcome) : Type 0 where
  pub last : ℕ
  pub counted : o.runs ≡ last + 1
  pub budget : last ≤ max_restarts
  pub reported : (o.retries ≡ countdown last) ⊎ (o.retries ≡ (last + 1) ∷ countdown last)
  pub why : Why max_restarts last (attempts last) o.result

module _ (max_restarts : ℕ) (attempts : ℕ → Attempt) where
  abbrev Settled : Option Outcome → Type 0
  Settled r = (o : Outcome) × (r ≡ some o) × Explains max_restarts attempts o

  after_wait-Settled :
      (restarts : ℕ) (next : Option Outcome)
      → restarts ≤ max_restarts
      → Settled next
      → Settled (
          after_wait max_restarts attempts
            (attempts restarts)
            restarts
            ((restarts + 1) ∷ countdown restarts)
            next)
  after_wait-Settled restarts next h (o, found, x) = elim (Option-cases (attempts restarts).wait) [
    | inl waited ↦ elim (Bool-cases (attempts restarts).wait_cancelled) [
      | inl stop ↦
          rw (waited, stop)
            (
              _,
              refl,
              record {
                last = restarts;
                counted = refl;
                budget = h;
                reported = inr refl;
                why = ground arith;
              },
            )
      | inr go ↦ rw (waited, go) (o, found, x)
    ]
    | inr (e, failed) ↦ elim (Bool-cases (attempts restarts).wait_cancelled) [
      | inl stop ↦
          rw (failed, stop)
            (
              _,
              refl,
              record {
                last = restarts;
                counted = refl;
                budget = h;
                reported = inr refl;
                why = ground arith;
              },
            )
      | inr go ↦
          rw (failed, go)
            (
              _,
              refl,
              record {
                last = restarts;
                counted = refl;
                budget = h;
                reported = inr refl;
                why = (e, ground arith);
              },
            )
    ]
  ]

  after_failure-Settled :
      (restarts : ℕ) (e : Error) (next : Option Outcome)
      → restarts ≤ max_restarts
      → (attempts restarts).result ≡ some e
      → (restarts < max_restarts → Settled next)
      → Settled (
          after_failure max_restarts attempts
            (attempts restarts)
            e
            restarts
            (countdown restarts)
            next)
  after_failure-Settled restarts e next h failed rest =
      if_intro Settled (attempts restarts).cancelled
        (λ stop. (
          _,
          refl,
          record {
            last = restarts;
            counted = refl;
            budget = h;
            reported = inl refl;
            why = ground arith;
          },
        ))
        (λ _.
          if_intro Settled (is_terminal e)
            (λ fatal. (
              _,
              refl,
              record {
                last = restarts;
                counted = refl;
                budget = h;
                reported = inl refl;
                why = (e, ground arith);
              },
            ))
            (λ _.
              if_intro Settled (leb max_restarts restarts)
                (λ spent. (
                  _,
                  refl,
                  record {
                    last = restarts;
                    counted = refl;
                    budget = h;
                    reported = inl refl;
                    why = (e, ground arith);
                  },
                ))
                (λ left. after_wait-Settled restarts next h (rest (ground arith)))))

  loop-Settled :
      (fuel restarts : ℕ) (retries : List ℕ)
      → restarts + fuel ≡ max_restarts + 1
      → restarts ≤ max_restarts
      → retries ≡ countdown restarts
      → Settled (loop max_restarts attempts fuel restarts retries)
  unfolding loop
  loop-Settled zero restarts retries e h r = absurd (omega arith)
  loop-Settled (suc fuel) restarts retries e h r = elim (Option-cases (attempts restarts).result) [
    | inl fine ↦
        rw (fine, loop)
          (
            _,
            refl,
            record {
              last = restarts;
              counted = refl;
              budget = h;
              reported = inl r;
              why = ground arith;
            },
          )
    | inr (x, failed) ↦
        rw (failed, loop, r)
          (after_failure-Settled restarts x _ h failed (λ left.
            loop-Settled fuel (restarts + 1) ((restarts + 1) ∷ countdown restarts) (omega arith)
              (omega arith) (countdown_step restarts)))
  ]

  -- The supervisor returns after at most `max_restarts` restarts, and the restarts are reported as
  -- 1, 2, … in turn. It returns nil only if the runner did or the context was cancelled; an error
  -- of the runner as it is only if that is terminal; and an exhausted budget only after exactly
  -- `max_restarts` restarts.
  pub run-Explains :
      (o : Outcome) × (run max_restarts attempts ≡ some o) × Explains max_restarts attempts o
  unfolding run
  run-Explains = loop-Settled (max_restarts + 1) 0 [] (omega arith) (omega arith) refl
