-- ===== src/Observability/Notifier/Laws.antt =====
-- What the service manager is told, and how often.
use onboardd.Prelude.{
  ℕ, suc, ◌-◌, ◌*◌, ◌/◌, ◌<◌, ◌^◌, String, Bool, true, false, not, ◌&&◌, ◌||◌, Option-cases, inl,
  inr, none, some, List, [], ◌∷◌, any, ltb, ℕ_eq, string_eq, if◌then◌else◌, ◌≡◌, ◌⊎◌, arith,
}
use onboardd.Prelude.Int.{ℤ, pos}
use onboardd.GoError.{ok}
use onboardd.Observability.Notifier.{
  Numbers, half_duration, interval_of, watchdog_interval, Message, watchdog, changed, Input,
  cancelled, snapshot, tick, loop, run,
}

-- The inputs that are taken: up to the cancellation, or the first message that cannot be sent.
abbrev pub taken : List Input → List Input
taken [] = []
taken (cancelled e ∷ inputs) = cancelled e ∷ []
taken (snapshot s none ∷ inputs) = snapshot s none ∷ taken inputs
taken (snapshot s (some e) ∷ inputs) = snapshot s (some e) ∷ []
taken (tick healthy none ∷ inputs) = tick healthy none ∷ taken inputs
taken (tick healthy (some e) ∷ inputs) =
    if healthy then tick healthy (some e) ∷ [] else tick healthy (some e) ∷ taken inputs

abbrev pub is_ready : Input → Bool
is_ready (snapshot s e) = s.ready
is_ready _ = false

abbrev pub is_beat : Input → Bool
is_beat (tick healthy e) = healthy
is_beat _ = false

abbrev pub beats : List Input → ℕ
beats [] = 0
beats (input ∷ inputs) = if is_beat input then suc (beats inputs) else beats inputs

abbrev pub ready_sent : List Message → ℕ
ready_sent [] = 0
ready_sent (changed true s ∷ messages) = suc (ready_sent messages)
ready_sent (message ∷ messages) = ready_sent messages

abbrev pub watchdogs_sent : List Message → ℕ
watchdogs_sent [] = 0
watchdogs_sent (watchdog ∷ messages) = suc (watchdogs_sent messages)
watchdogs_sent (message ∷ messages) = watchdogs_sent messages

loop-ready_sent :
    (sent : Bool) (inputs : List Input)
    → ready_sent (loop sent inputs).0 ≡ (if not sent && any is_ready (taken inputs) then 1 else 0)
unfolding loop
loop-ready_sent sent [] = ground arith
loop-ready_sent sent (cancelled e ∷ inputs) = ground arith
loop-ready_sent sent (snapshot s none ∷ inputs) =
    ground (arith, loop-ready_sent (sent || s.ready) inputs)
loop-ready_sent sent (snapshot s (some e) ∷ inputs) = ground arith
loop-ready_sent sent (tick healthy none ∷ inputs) = ground (arith, loop-ready_sent sent inputs)
loop-ready_sent sent (tick healthy (some e) ∷ inputs) = ground (arith, loop-ready_sent sent inputs)

loop-watchdogs_sent :
    (sent : Bool) (inputs : List Input) → watchdogs_sent (loop sent inputs).0 ≡ beats (taken inputs)
unfolding loop
loop-watchdogs_sent sent [] = ground arith
loop-watchdogs_sent sent (cancelled e ∷ inputs) = ground arith
loop-watchdogs_sent sent (snapshot s none ∷ inputs) =
    ground (arith, loop-watchdogs_sent (sent || s.ready) inputs)
loop-watchdogs_sent sent (snapshot s (some e) ∷ inputs) = ground arith
loop-watchdogs_sent sent (tick healthy none ∷ inputs) =
    ground (arith, loop-watchdogs_sent sent inputs)
loop-watchdogs_sent sent (tick healthy (some e) ∷ inputs) =
    ground (arith, loop-watchdogs_sent sent inputs)

-- Once the startup status is sent: READY=1 is sent once if a snapshot that is taken is ready, and
-- never otherwise, and a heartbeat is sent for each tick that is taken while the appliance is
-- healthy, and for no other.
pub run-ready_sent :
    (inputs : List Input)
    → (ready_sent (run none inputs).0 ≡ (if any is_ready (taken inputs) then 1 else 0))
      × (watchdogs_sent (run none inputs).0 ≡ beats (taken inputs))
unfolding run
run-ready_sent inputs =
    ground (arith, loop-ready_sent false inputs, loop-watchdogs_sent false inputs)

half_duration_exact :
    (m : ℕ) → ltb ((2 ^ 63 - 1) / 1000) m ≡ false → half_duration m ≡ pos (m * 1000 / 2)
unfolding half_duration
half_duration_exact m h = ground arith

-- An interval that is half of what WATCHDOG_USEC says, which did not wrap.
abbrev pub Halves : Numbers → (String → String) → ℤ → Type 0
Halves numbers getenv d =
    (m : ℕ) × (numbers.parse_uint (getenv "WATCHDOG_USEC") ≡ some m)
    × (0 < m)
    × (m * 1000 < 2 ^ 63)
    × (d ≡ pos (m * 1000 / 2))

interval_of-Halves :
    (numbers : Numbers) (getenv : String → String) (d : ℤ)
    → interval_of numbers (getenv "WATCHDOG_USEC") ≡ ok d
    → Halves numbers getenv d
unfolding interval_of
interval_of-Halves numbers getenv d h =
    elim (Option-cases (numbers.parse_uint (getenv "WATCHDOG_USEC"))) [
      | inl missing ↦ absurd (ground arith)
      | inr (m, e) ↦ (m, e, ground arith, ground arith, ground (arith, half_duration_exact m))
    ]

interval_cases :
    (numbers : Numbers) (getenv : String → String) (pid d : ℤ)
    → watchdog_interval numbers getenv pid ≡ ok d
    → (d ≡ pos 0) ⊎ (interval_of numbers (getenv "WATCHDOG_USEC") ≡ ok d)
unfolding watchdog_interval
interval_cases numbers getenv pid d h = ground arith

-- An accepted watchdog interval is either none, where WATCHDOG_USEC is not set or WATCHDOG_PID
-- names another process, or exactly half of the positive number of microseconds in WATCHDOG_USEC,
-- in nanoseconds; the product does not overflow an int64.
watchdog_interval-Halves :
    (numbers : Numbers) (getenv : String → String) (pid d : ℤ)
    → watchdog_interval numbers getenv pid ≡ ok d
    → (d ≡ pos 0) ⊎ Halves numbers getenv d
watchdog_interval-Halves numbers getenv pid d h = elim (interval_cases numbers getenv pid d h) [
  | inl off ↦ inl off
  | inr read ↦ inr (interval_of-Halves numbers getenv d read)
]
