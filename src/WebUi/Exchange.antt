-- ===== src/WebUi/Exchange.antt =====
-- What the handlers of internal/webui/api.go share: the reading of a JSON body, the release of an
-- operation once its acceptance is written, and the problem that answers an error of the service.
use onboardd.Prelude.{
  ℕ, String, Bool, false, not, Option, none, some, ◌==◌, string_eq, if◌then◌else◌,
}
use onboardd.GoError.{Error, new, wrap}
use onboardd.SetupFlow.Types.{Operation, as_public}
use onboardd.SetupFlow.Slot.{Service, begin_operation, cancel_pending_operation}
use onboardd.WebUi.Guard.{Problem, problem}

-- What the JSON decoder makes of a body: too long, not the value that is asked for, followed by
-- more, or that value alone.
pub data Body (A : Type 0) : Type 0 where
  too_large : Body A
  malformed : Body A
  followed : Body A
  whole : A → Body A

pub data Json (A : Type 0) : Type 0 where
  refused : Problem → Json A
  decoded : A → Json A

abbrev invalid_json : Problem
invalid_json = problem 400 "invalid_json" "The request could not be understood."

abbrev is_json : Option String → Bool
is_json none = false
is_json (some media_type) = media_type == "application/json"

-- `content` is the media type, where `mime.ParseMediaType` accepts the header.
unfoldable pub decode_json : {A : Type 0} → Option String → Body A → Json A
decode_json content body =
    if not (is_json content)
    then refused (problem 415 "json_required" "The request must use JSON.")
    else elim body [
      | too_large ↦ refused (problem 413 "request_too_large" "The request is too large.")
      | malformed ↦ refused invalid_json
      | followed ↦ refused invalid_json
      | whole value ↦ decoded value
    ]

-- How the acceptance of an operation reaches the client.
pub data Delivery : Type 0 where
  encode_failed write_failed flush_failed : Error → Delivery
  short_write : Delivery
  delivered : Delivery

unfoldable pub accept_operation : Delivery → Option Error
accept_operation (encode_failed e) = some (wrap "encode accepted setup operation" e)
accept_operation (write_failed e) = some (wrap "write accepted setup operation" e)
accept_operation short_write = some (wrap "write accepted setup operation" (new "short write"))
accept_operation (flush_failed e) = some (wrap "flush accepted setup operation" e)
accept_operation delivered = none

unfoldable pub start_operation : Service → Operation → Delivery → ℕ → Service
unfolding accept_operation
start_operation s o delivery now = elim (accept_operation delivery) [
  | some e ↦ (cancel_pending_operation s o.id now).0
  | none ↦ (begin_operation s o.id now).0
]

abbrev pub internal_error : Problem
internal_error =
    problem 500 "internal_failure" "Setup is temporarily unavailable. Please try again."

abbrev pub invalid_profile_id : Problem
invalid_profile_id = problem 400 "invalid_profile_id" "The saved network identifier is invalid."

unfoldable pub public_status : String → ℕ
public_status code =
    if code == "mode_unavailable"
    then 403
    else if code == "network_read_only"
    then 403
    else if code == "known_network_not_found"
    then 404
    else if code == "active_network"
    then 409
    else if code == "profile_change_in_progress"
    then 409
    else 400

-- `writeServiceError` of an error that is no conflict.
unfoldable pub service_error : Error → Problem
unfolding public_status
service_error e = elim (as_public e) [
  | some failure ↦ (public_status failure.code, failure)
  | none ↦ internal_error
]
