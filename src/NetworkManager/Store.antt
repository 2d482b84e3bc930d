-- ===== src/NetworkManager/Store.antt =====
-- The calls of internal/networkmanager/client.go and `addAndActivate` of transitions.go that keep
-- the store of profiles: listing, deleting, checkpoints, and adding a profile. The answers of D-Bus
-- are parameters.
pub mod Laws
mod Tests
use onboardd.Prelude.{
  text_less, ℕ, ◌-◌, ◌/◌, ◌%◌, ◌^◌, String, Bool, true, false, not, ◌&&◌, ◌||◌, Option, none, some,
  List, [], ◌∷◌, ltb, ◌==◌, ◌!=◌, ℕ_eq, string_eq, if◌then◌else◌, starts_with,
}
use onboardd.Prelude.Int.{ℤ, pos, negsuc, is_positive}
use onboardd.Prelude.Sort.{slice_stable}
use onboardd.GoError.{Error, new, wrap, Result, ok, err}
use onboardd.NetworkManager.Types.{
  Role, role_eq, Status, Profile, is_infrastructure_wifi, Activation,
}
use onboardd.NetworkManager.Settings.{Std, valid_uuid}
use onboardd.NetworkManager.Autoconnect.{Answer, done, gone, failed}

-- `objectGoneErrorName`
unfoldable pub object_gone_error_name : String → Bool
object_gone_error_name name =
    name == "org.freedesktop.DBus.Error.UnknownObject"
    || name == "org.freedesktop.DBus.Error.UnknownInterface"
    || name == "org.freedesktop.DBus.Error.UnknownMethod"
    || name == "org.freedesktop.NetworkManager.UnknownConnection"

-- The answer to the reading of one listed profile.
pub data Read : Type 0 where
  read : Profile → Read
  vanished : Read
  unreadable : Error → Read

unfoldable pub read_all : List Read → Result (List Profile)
read_all [] = ok []
read_all (vanished ∷ reads) = read_all reads
read_all (unreadable e ∷ reads) = err (wrap "read profile" e)
read_all (read p ∷ reads) = elim (read_all reads) [ err e ↦ err e | ok ps ↦ ok (p ∷ ps) ]

abbrev pub profile_less : Profile → Profile → Bool
profile_less left right =
    if left.id == right.id then text_less left.uuid right.uuid else text_less left.id right.id

-- `sort.Slice`: the order of profiles with the same id and UUID does not matter.
unfoldable pub profiles : Result (List Read) → Result (List Profile)
unfolding read_all
profiles (err e) = err (wrap "list NetworkManager profiles" e)
profiles (ok reads) = elim (read_all reads) [
  | err e ↦ err e
  | ok ps ↦ ok (slice_stable profile_less ps)
]

-- The profiles whose deletion is asked for, in order, and the error.
abbrev pub Deletions : Type 0
Deletions = List Profile × Option Error

abbrev pub answer_error : Answer → Option Error
answer_error done = none
answer_error gone = some (new "object is gone")
answer_error (failed e) = some e

abbrev pub delete_profile : (Profile → Answer) → Profile → Deletions
delete_profile answer p = (
  p ∷ [],
  elim (answer_error (answer p)) [ none ↦ none | some e ↦ some (wrap "delete onboardd profile" e) ],
)

unfoldable pub find_owned : (Profile → Answer) → String → List Profile → Deletions
find_owned answer uuid [] = ([], none)
find_owned answer uuid (p ∷ ps) =
    if p.uuid != uuid
    then find_owned answer uuid ps
    else if not p.owned
    then ([], some (new "refusing to delete profile because it is not owned by onboardd"))
    else delete_profile answer p

unfoldable pub delete_owned_profile :
    Std → (Profile → Answer) → String → Result (List Profile) → Deletions
unfolding find_owned
delete_owned_profile std answer uuid listed =
    if not (valid_uuid std uuid)
    then ([], some (new "UUID must use the canonical 8-4-4-4-12 format"))
    else elim listed [ err e ↦ ([], some e) | ok ps ↦ find_owned answer (std.to_lower uuid) ps ]

abbrev pub is_ours : String → Profile → Bool
is_ours interface p =
    p.owned && p.role == Role.infrastructure && p.interface == interface && is_infrastructure_wifi p

unfoldable pub find_infrastructure : (Profile → Answer) → String → String → List Profile → Deletions
find_infrastructure answer interface uuid [] = ([], some (new "profile was not found"))
find_infrastructure answer interface uuid (p ∷ ps) =
    if p.uuid != uuid
    then find_infrastructure answer interface uuid ps
    else if not (is_ours interface p)
    then (
      [],
      some (
          new
            "refusing to delete profile because it is not an onboardd-owned infrastructure profile"),
    )
    else delete_profile answer p

abbrev pub delete_inactive :
    (Profile → Answer) → String → String → Result (List Profile) → Status → Deletions
delete_inactive answer interface uuid listed s =
    if s.device.active_uuid == uuid
    then ([], some (new "refusing to delete active profile"))
    else elim listed [ err e ↦ ([], some e) | ok ps ↦ find_infrastructure answer interface uuid ps ]

unfoldable pub delete_owned_infrastructure_profile :
    Std → (Profile → Answer) → String → String → Result Status → Result (List Profile) → Deletions
unfolding find_infrastructure
delete_owned_infrastructure_profile std answer interface uuid status listed =
    if interface == ""
    then ([], some (new "interface name is required"))
    else if not (valid_uuid std uuid)
    then ([], some (new "uuid must use the canonical 8-4-4-4-12 format"))
    else elim status [
      | err e ↦ ([], some e)
      | ok s ↦ delete_inactive answer interface (std.to_lower uuid) listed s
    ]

unfoldable pub pending_profiles : String → List Profile → List Profile
pending_profiles interface [] = []
pending_profiles interface (p ∷ ps) =
    let rest = pending_profiles interface ps in
    if p.owned && p.pending && p.interface == interface && p.role == Role.infrastructure
    then p ∷ rest
    else rest

-- A profile that is gone already is no failure.
unfoldable pub delete_each : (Profile → Answer) → List Profile → Deletions
delete_each answer [] = ([], none)
delete_each answer (p ∷ ps) =
    let (asked, error) = delete_each answer ps in
    elim (answer p) [
      | done ↦ (p ∷ asked, error)
      | gone ↦ (p ∷ asked, error)
      | failed e ↦ (
        p ∷ [],
        some (wrap "delete pending infrastructure candidate" (wrap "delete onboardd profile" e)),
      )
    ]

unfoldable pub delete_pending_infrastructure_profiles :
    (Profile → Answer) → String → Result (List Profile) → Deletions
unfolding pending_profiles delete_each
delete_pending_infrastructure_profiles answer interface listed =
    if interface == "" then ([], some (new "interface name is required")) else elim listed [
      | err e ↦ ([], some (wrap "list profiles for pending candidate cleanup" e))
      | ok ps ↦ delete_each answer (pending_profiles interface ps)
    ]

-- The seconds that `CreateCheckpoint` hands to NetworkManager as a uint32.
abbrev pub seconds_of : ℕ → Result ℕ
seconds_of nanoseconds =
    if ltb (2 ^ 32 - 1) (nanoseconds / 10 ^ 9)
    then err (new "checkpoint rollback duration is too large")
    else ok (nanoseconds / 10 ^ 9)

unfoldable pub checkpoint_seconds : ℤ → Result ℕ
checkpoint_seconds (negsuc n) =
    err (new "checkpoint rollback duration must be a positive whole number of seconds")
checkpoint_seconds (pos n) =
    if n == 0 || n % 10 ^ 9 != 0
    then err (new "checkpoint rollback duration must be a positive whole number of seconds")
    else seconds_of n

-- `is_valid_path` is `dbus.ObjectPath.IsValid`.
unfoldable pub validate_checkpoint_path : (String → Bool) → String → Result String
validate_checkpoint_path is_valid_path value =
    if not (is_valid_path value)
      || not (starts_with value "/org/freedesktop/NetworkManager/Checkpoint/")
    then err (new "invalid NetworkManager checkpoint path")
    else ok value

-- What `addAndActivate` asks of NetworkManager, with the answers, in order.
pub data Added : Type 0 where
  added : Option Error → Added
  activated : Result String → Added
  deleted : Answer → Added

abbrev pub no_activation : Activation
no_activation = record { active_path = ""; uuid = "" }

-- After a failed activation. Any error of the deletion counts, one that says that the profile is gone
-- too.
abbrev pub give_up : String → Error → Answer → Activation × Option Error × List Added
give_up uuid e done = (
  no_activation,
  some (wrap "activate profile" e),
  added none ∷ activated (err e) ∷ deleted done ∷ [],
)
give_up uuid e answer = (
  record { active_path = ""; uuid = uuid },
  some (wrap "activate profile, and its cleanup also failed" e),
  added none ∷ activated (err e) ∷ deleted answer ∷ [],
)

unfoldable pub add_and_activate :
    String
    → Result String
    → Option Error
    → Result String
    → Answer
    → Activation × Option Error × List Added
add_and_activate uuid (err e) add activate delete = (no_activation, some e, [])
add_and_activate uuid (ok device) (some e) activate delete =
    (no_activation, some (wrap "add profile" e), added (some e) ∷ [])
add_and_activate uuid (ok device) none (err e) delete = give_up uuid e delete
add_and_activate uuid (ok device) none (ok path) delete =
    (record { active_path = path; uuid = uuid }, none, added none ∷ activated (ok path) ∷ [])
