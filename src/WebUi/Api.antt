-- ===== src/WebUi/Api.antt =====
-- The handlers of internal/webui/api.go, over the service of internal/setupflow. A handler takes the
-- service, and gives the service after it, the calls of the backend and the reply. `World` is what the handlers ask the backend,
-- the clock, the random source and the connection for.
mod Cases
pub mod Laws
pub mod Release
pub mod Secrets
mod Tests
use onboardd.Prelude.{
  ℕ, String, Bool, true, false, not, Option, none, some, List, [], ◌∷◌, ◌==◌, ◌!=◌, string_eq,
  if◌then◌else◌,
}
use onboardd.GoError.{Error, new, wrap, Result, ok, err}
use onboardd.NetworkManager.Settings.{Std}
use onboardd.SetupFlow.Types.{
  Mode, Failure, Operation, Network, KnownNetwork, ConnectionRequest, as_public,
}
use onboardd.SetupFlow.Slot.{
  Service, Started, Forget, begin_operation, cancel_pending_operation, end_forget,
}
use onboardd.SetupFlow.Reads.{
  Capabilities, Bootstrap, bootstrap, networks, known_networks, forget_known_network,
  start_connection, start_known_network, start_standalone,
}
use onboardd.WebUi.Exchange.{
  Body, Json, refused, decoded, decode_json, Delivery, encode_failed, write_failed, flush_failed,
  short_write, delivered, start_operation, internal_error, invalid_profile_id, service_error,
}
use onboardd.WebUi.Handoff.{HandoffResponse, browser_handoff}
use onboardd.WebUi.Guard.{
  Api, Headers, Url, Problem, problem, allow_origin, allow_session, allow_mutation,
  valid_profile_uuid, validate_connection_payload,
}

-- The routes of the multiplexer, which picks one by the method and the path:
-- `session` is the route of POST /api/v1/session alone.
pub data Route : Type 0 where
  session setup list_networks list_known connections standalone not_found : Route
  forget connect_known : String → Route
  operation : String → Route

pub record Request : Type 0 where
  pub headers : Headers
  pub route : Route
  pub content : Option String
  pub session_body : Body String
  pub connection_body : Body ConnectionRequest
  pub standalone_body : Body Bool

pub record World : Type 0 where
  pub mode : Result Mode
  pub found : Result (List Network)
  pub shuffle : List Network → List Network
  pub known : Result (List KnownNetwork)
  pub forget_error : Option Error
  pub new_id : Result String
  pub now : ℕ
  pub delivery : Delivery
  pub checker : Option (String → Bool)  -- the readiness check of the application
  pub gives_up : Bool  -- the client leaves during the delay after a wrong password

pub data Reply : Type 0 where
  nothing : Reply
  failed : Problem → Reply
  in_progress : Operation → Reply
  unlocked : String → Reply
  set_up : Bootstrap → String → Option HandoffResponse → Reply
  found_networks : List Network → Reply
  found_known : List KnownNetwork → Reply
  forgotten : String → Reply
  accepted : Operation → Reply
  cut_off : Operation → Reply  -- status 202, but the operation may not have reached the client
  found_operation : Operation → Reply

-- What the client sees of the acceptance of an operation.
unfoldable pub acceptance : Operation → Delivery → Reply
acceptance o (encode_failed e) = nothing
acceptance o (write_failed e) = cut_off o
acceptance o short_write = cut_off o
acceptance o (flush_failed e) = cut_off o
acceptance o delivered = accepted o

-- The service after a request, the profiles that the backend was told to forget, and the reply.
abbrev pub Served : Type 0
Served = Service × List String × Reply

abbrev pub is_session : Route → Bool
is_session session = true
is_session _ = false

-- `digest` is SHA-256.
module _ (std : Std) (parse_url : String → Option Url) (digest : String → String) (api : Api)
    (c : Capabilities) (w : World) (s : Service) (r : Request) where
  unfoldable pub post_session : Reply
  unfolding decode_json
  post_session = elim (allow_origin std parse_url api r.headers) [
    | some p ↦ failed p
    | none ↦ elim (decode_json r.content r.session_body) [
      | refused p ↦ failed p
      | decoded password ↦
          if digest password != api.password_digest
          then (if w.gives_up
              then nothing
              else failed
                  (problem 401 "authentication_failed" "The administrator password is incorrect."))
          else unlocked api.session_token
    ]
  ]

  unfoldable pub get_setup : Reply
  get_setup = elim (bootstrap c s w.mode) [
    | err e ↦ failed internal_error
    | ok b ↦ set_up b api.csrf_token (browser_handoff api.handoff w.checker)
  ]

  unfoldable pub get_networks : Reply
  unfolding service_error
  get_networks = elim (networks c w.shuffle w.found) [
    | err e ↦ failed (service_error e)
    | ok found ↦ found_networks found
  ]

  unfoldable pub get_known_networks : Reply
  unfolding service_error
  get_known_networks = elim (known_networks c w.known) [
    | err e ↦ failed (service_error e)
    | ok known ↦ found_known known
  ]

  unfoldable pub get_operation : String → Reply
  get_operation id = elim (s.operations id) [
    | none ↦
        failed (problem 404 "operation_not_found" "This setup operation is no longer available.")
    | some o ↦ found_operation o
  ]

  -- The answer of a start method, and the release of the operation.
  unfoldable pub begin_started : Service × Started → Served
  unfolding start_operation service_error acceptance
  begin_started (t, Started.refused e) = (t, [], failed (service_error e))
  begin_started (t, Started.conflict o) = (t, [], in_progress o)
  begin_started (t, Started.accepted o) =
      (start_operation t o w.delivery w.now, [], acceptance o w.delivery)

  -- The flag for forgetting is held during the call of the backend, for the UUID.
  unfoldable pub finish_forget : String → Service × Forget → Served
  unfolding service_error
  finish_forget uuid (t, Forget.refused e) = (t, [], failed (service_error e))
  finish_forget uuid (t, Forget.conflict o) = (t, [], in_progress o)
  finish_forget uuid (t, Forget.forgetting) = (
    end_forget t,
    uuid ∷ [],
    elim w.forget_error [ some e ↦ failed (service_error e) | none ↦ forgotten uuid ],
  )

  unfoldable pub delete_known_network : String → Served
  unfolding finish_forget
  delete_known_network path = elim (allow_mutation std parse_url api r.headers) [
    | some p ↦ (s, [], failed p)
    | none ↦
        if not (valid_profile_uuid std (std.to_lower path))
        then (s, [], failed invalid_profile_id)
        else finish_forget (std.to_lower path) (forget_known_network c s)
  ]

  unfoldable pub post_known_network : String → Served
  unfolding begin_started
  post_known_network path = elim (allow_mutation std parse_url api r.headers) [
    | some p ↦ (s, [], failed p)
    | none ↦
        if not (valid_profile_uuid std (std.to_lower path))
        then (s, [], failed invalid_profile_id)
        else begin_started (start_known_network c s w.new_id w.now (std.to_lower path) w.known)
  ]

  unfoldable pub post_connection : Served
  unfolding begin_started decode_json
  post_connection = elim (allow_mutation std parse_url api r.headers) [
    | some p ↦ (s, [], failed p)
    | none ↦ elim (decode_json r.content r.connection_body) [
      | refused p ↦ (s, [], failed p)
      | decoded payload ↦ elim (validate_connection_payload std payload) [
        | some p ↦ (s, [], failed p)
        | none ↦ begin_started (start_connection c s w.new_id w.now payload)
      ]
    ]
  ]

  unfoldable pub post_standalone : Served
  unfolding begin_started decode_json
  post_standalone = elim (allow_mutation std parse_url api r.headers) [
    | some p ↦ (s, [], failed p)
    | none ↦ elim (decode_json r.content r.standalone_body) [
      | refused p ↦ (s, [], failed p)
      | decoded confirm ↦
          if not confirm
          then (
            s,
            [],
            failed
                (problem 400 "confirmation_required" "Confirm standalone mode before continuing."),
          )
          else begin_started (start_standalone c s w.new_id w.now)
    ]
  ]

  unfoldable pub dispatch : Route → Served
  unfolding post_session get_setup get_networks get_known_networks get_operation
      delete_known_network post_known_network post_connection post_standalone
  dispatch session = (s, [], post_session)
  dispatch setup = (s, [], get_setup)
  dispatch list_networks = (s, [], get_networks)
  dispatch list_known = (s, [], get_known_networks)
  dispatch (forget path) = delete_known_network path
  dispatch (connect_known path) = post_known_network path
  dispatch connections = post_connection
  dispatch standalone = post_standalone
  dispatch (operation id) = (s, [], get_operation id)
  dispatch not_found =
      (s, [], failed (problem 404 "api_not_found" "This setup API route does not exist."))

  unfoldable pub serve_http : Served
  unfolding dispatch
  serve_http = if is_session r.route then dispatch r.route else elim (allow_session api r.headers) [
    | some p ↦ (s, [], failed p)
    | none ↦ dispatch r.route
  ]
