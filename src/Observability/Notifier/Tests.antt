-- ===== src/Observability/Notifier/Tests.antt =====
-- Tests of internal/observability/notifier.go: the appliance gets ready twice.
use onboardd.Prelude.{
  String, true, false, none, some, List, [], ◌∷◌, any, if◌then◌else◌, ◌==◌, string_eq, refl, ◌≡◌,
}
use onboardd.Prelude.Int.{pos}
use onboardd.GoError.{ok}
use onboardd.Appliance.Types.{Stage, Mode, Reason}
use onboardd.Observability.Health.{Status, Snapshot}
use onboardd.Observability.Notifier.{
  Numbers, starting, stopping, watchdog, changed, message_text, status_text, half_duration,
  interval_of, watchdog_interval, Input, cancelled, snapshot, tick, loop, run,
}
use onboardd.Observability.Notifier.Laws.{
  is_ready, taken, beats, ready_sent, watchdogs_sent, run-ready_sent,
}

abbrev up : Snapshot
up = record {
  status = Status.ready;
  healthy = true;
  ready = true;
  sequence = 1;
  stage = Stage.infrastructure;
  mode = Mode.infrastructure;
  reason = Reason.unset;
  updated_at = 1;
}

abbrev inputs : List Input
inputs =
    tick false none ∷ snapshot up none ∷ tick true none ∷ snapshot up none ∷ cancelled none ∷ []

sends_ready_once :
    (run none inputs).0
    ≡ starting ∷ changed true Status.ready ∷ watchdog ∷ changed false Status.ready ∷ stopping ∷ []
unfolding run loop
sends_ready_once = refl

ready_text : message_text (changed true Status.ready) ≡ "READY=1\nSTATUS=Ready"
unfolding message_text status_text
ready_text = refl

run-ready_sent_example :
    (ready_sent (run none inputs).0 ≡ (if any is_ready (taken inputs) then 1 else 0))
    × (watchdogs_sent (run none inputs).0 ≡ beats (taken inputs))
run-ready_sent_example = run-ready_sent inputs

-- WATCHDOG_USEC is a minute, for any process.
abbrev environment : String → String
environment name = if name == "WATCHDOG_USEC" then "60000000" else ""

abbrev one_minute : Numbers
one_minute = record { parse_uint = λ text. some 60000000; atoi = λ text. none }

half_a_minute : watchdog_interval one_minute environment (pos 7) ≡ ok (pos 30000000000)
unfolding watchdog_interval interval_of half_duration
half_a_minute = refl
