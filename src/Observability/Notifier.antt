-- ===== src/Observability/Notifier.antt =====
-- internal/observability/notifier.go: what the service manager is told. `notify` answers with the
-- input of a round; the messages are listed in the order in which they are sent.
pub mod Laws
mod Tests
use Prim.Native.String.{◌++◌}
use onboardd.Prelude.{
  ℕ, ◌-◌, ◌*◌, ◌/◌, ◌%◌, ◌^◌, String, Bool, true, false, not, ◌&&◌, ◌||◌, Option, none, some, List,
  [], ◌∷◌, ltb, nat_eq, ◌==◌, ◌!=◌, ℕ_eq, string_eq, if◌then◌else◌, starts_with,
}
use onboardd.Prelude.Int.{ℤ, pos, negsuc, is_positive}
use onboardd.GoError.{Error, new, wrap, Result, ok, err}
use onboardd.Observability.Health.{Status, Snapshot}

-- The texts of the two strings of the environment that hold numbers, as `strconv` reads them:
-- `ParseUint` in 64 bits and `Atoi`.
pub record Numbers : Type 0 where
  pub parse_uint : String → Option ℕ
  pub atoi : String → Option ℤ

-- `time.Duration(microseconds) * time.Microsecond / 2`: an int64 product, which wraps, and a
-- division that rounds towards zero.
unfoldable pub half_duration : ℕ → ℤ
half_duration microseconds =
    let product = (microseconds * 1000) % 2 ^ 64 in
    if ltb product (2 ^ 63)
    then pos (product / 2)
    else if (2 ^ 64 - product) / 2 == 0
    then pos 0
    else negsuc ((2 ^ 64 - product) / 2 - 1)

-- From the reading of WATCHDOG_USEC on.
unfoldable pub interval_of : Numbers → String → Result ℤ
unfolding half_duration
interval_of numbers value = elim (numbers.parse_uint value) [
  | none ↦ err (new "WATCHDOG_USEC must be a positive integer")
  | some microseconds ↦
      if microseconds == 0
      then err (new "WATCHDOG_USEC must be a positive integer")
      else if ltb ((2 ^ 63 - 1) / 1000) microseconds
      then err (new "WATCHDOG_USEC exceeds the supported duration")
      else ok (half_duration microseconds)
]

abbrev int_ne : ℤ → ℤ → Bool
int_ne (pos a) (pos b) = not (nat_eq a b)
int_ne (negsuc a) (negsuc b) = not (nat_eq a b)
int_ne _ _ = true

unfoldable pub watchdog_interval : Numbers → (String → String) → ℤ → Result ℤ
unfolding interval_of
watchdog_interval numbers getenv pid =
    if getenv "WATCHDOG_USEC" == ""
    then ok (pos 0)
    else if getenv "WATCHDOG_PID" == ""
    then interval_of numbers (getenv "WATCHDOG_USEC")
    else elim (numbers.atoi (getenv "WATCHDOG_PID")) [
      | none ↦ err (new "WATCHDOG_PID must be a positive process ID")
      | some parsed ↦
          if not (is_positive parsed)
          then err (new "WATCHDOG_PID must be a positive process ID")
          else if int_ne parsed pid
          then ok (pos 0)
          else interval_of numbers (getenv "WATCHDOG_USEC")
    ]

pub record Notifier : Type 0 where
  pub enabled : Bool
  pub watchdog_interval : ℤ

unfoldable pub new_notifier : Numbers → (String → String) → ℤ → Result Notifier
new_notifier numbers getenv pid =
    if getenv "NOTIFY_SOCKET" == ""
    then ok (record { enabled = false; watchdog_interval = pos 0 })
    else if not (starts_with (getenv "NOTIFY_SOCKET") "/")
        && not (starts_with (getenv "NOTIFY_SOCKET") "@")
    then err (new "NOTIFY_SOCKET must be an absolute or abstract Unix socket")
    else elim (watchdog_interval numbers getenv pid) [
      | err e ↦ err e
      | ok interval ↦ ok (record { enabled = true; watchdog_interval = interval })
    ]

unfoldable pub status_text : Status → String
status_text Status.ready = "Ready"
status_text Status.reconciling = "Reconciling network state"
status_text Status.recovering = "Recovering runtime component"
status_text Status.stopping = "Stopping"
status_text Status.stopped = "Stopped"
status_text Status.failed = "Failed"
status_text Status.starting = "Starting"

-- `changed ready status` says whether READY=1 is sent with the status.
pub data Message : Type 0 where
  starting stopping watchdog : Message
  changed : Bool → Status → Message

unfoldable pub message_text : Message → String
unfolding status_text
message_text starting = "STATUS=Starting"
message_text stopping = "STOPPING=1\nSTATUS=Stopping"
message_text watchdog = "WATCHDOG=1"
message_text (changed ready status) =
    if ready
    then "READY=1\n" ++ ("STATUS=" ++ status_text status)
    else "STATUS=" ++ status_text status

-- The three cases of the select: the context is done, a health change, a tick of the watchdog with
-- the health at that time.
pub data Input : Type 0 where
  cancelled : Option Error → Input
  snapshot : Snapshot → Option Error → Input
  tick : Bool → Option Error → Input

pub data Outcome : Type 0 where
  waits : Outcome
  returns : Option Error → Outcome

abbrev pub send : Message → String → Option Error → List Message × Outcome → List Message × Outcome
send message text none rest = (message ∷ rest.0, rest.1)
send message text (some e) rest = (message ∷ [], returns (some (wrap text e)))

unfoldable pub loop : Bool → List Input → List Message × Outcome
loop ready_sent [] = ([], waits)
loop ready_sent (cancelled e ∷ inputs) = (stopping ∷ [], returns none)
loop ready_sent (snapshot s e ∷ inputs) =
    send (changed (s.ready && not ready_sent) s.status) "send systemd health status" e
      (loop (ready_sent || s.ready) inputs)
loop ready_sent (tick healthy e ∷ inputs) =
    let rest = loop ready_sent inputs in
    if not healthy then rest else send watchdog "send systemd watchdog heartbeat" e rest

unfoldable pub run : Option Error → List Input → List Message × Outcome
unfolding loop
run start inputs = send starting "send systemd startup status" start (loop false inputs)
