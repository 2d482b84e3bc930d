-- ===== src/WebUi/Api/Cases.antt =====
-- The branches of the handlers of internal/webui/api.go, gone through once for every property.
use onboardd.Prelude.{
  String, Option, inl, inr, [], Option-cases, Bool-cases, refl, ◌≡◌, ◌⊎◌, not, string_eq,
}
use onboardd.GoError.{Result-cases}
use onboardd.NetworkManager.Settings.{Std}
use onboardd.SetupFlow.Types.{OperationKind, ConnectionRequest}
use onboardd.SetupFlow.Slot.{Service, Action, Started, start, begin_forget}
use onboardd.Prelude.Sort.{slice_stable}
use onboardd.SetupFlow.Reads.{
  known_less, Capabilities, find_known, start_refusal, forget_known_network, start_connection,
  start_known_network, start_standalone,
}
use onboardd.WebUi.Guard.{
  Api, Url, Problem, allow_session, allow_mutation, valid_profile_uuid, validate_connection_payload,
}
use onboardd.WebUi.Exchange.{Json, refused, decoded, decode_json}
use onboardd.WebUi.Api.{
  Request, World, Served, Reply, Route, begin_started, finish_forget, delete_known_network,
  post_known_network, post_connection, post_standalone, dispatch, serve_http, is_session,
}

pub Json-cases :
    {A : Type 0} (j : Json A) → ((p : Problem) × (j ≡ refused p)) ⊎ ((a : A) × (j ≡ decoded a))
Json-cases (refused p) = inl (p, refl)
Json-cases (decoded a) = inr (a, refl)

module _ (std : Std) (parse_url : String → Option Url) (digest : String → String) (api : Api)
    (c : Capabilities) (w : World) (s : Service) (r : Request) (P : Served → Type 0)
    (same : (reply : Reply) → P (s, [], reply))
    (starts : (kind : OperationKind) (network : String) (action : Action)
      → P (
          (begin_started std parse_url digest api c w s r
            (start s kind network action w.new_id w.now))))
    (forgets : (path : String)
      → P (finish_forget std parse_url digest api c w s r path (begin_forget s))) where
  abbrev began : Service × Started → Served
  began x = begin_started std parse_url digest api c w s r x

  start_connection_holds :
      (request : ConnectionRequest) → P (began (start_connection c s w.new_id w.now request))
  unfolding start_connection begin_started
  start_connection_holds request = elim (Bool-cases (not c.network)) [
    | inl e ↦ rw e (same _)
    | inr e ↦ rw e (starts OperationKind.connect request.ssid (Action.connect request))
  ]

  start_standalone_holds : P (began (start_standalone c s w.new_id w.now))
  unfolding start_standalone begin_started
  start_standalone_holds = elim (Bool-cases (not c.standalone)) [
    | inl e ↦ rw e (same _)
    | inr e ↦ rw e (starts OperationKind.standalone "" Action.standalone)
  ]

  start_known_network_holds :
      (uuid : String) → P (began (start_known_network c s w.new_id w.now uuid w.known))
  unfolding start_known_network begin_started
  start_known_network_holds uuid = elim (Bool-cases (not c.network)) [
    | inl e ↦ rw e (same _)
    | inr e ↦ elim (Result-cases w.known) [
      | inr (x, k) ↦ rw (e, k) (same _)
      | inl (known, k) ↦ elim (Option-cases (find_known uuid (slice_stable known_less known))) [
        | inl f ↦ rw (e, k, f) (same _)
        | inr (n, f) ↦ elim (Option-cases (start_refusal n)) [
          | inr (x, g) ↦ rw (e, k, f, g) (same _)
          | inl g ↦
              rw (e, k, f, g) (starts OperationKind.connect n.ssid (Action.connect_known uuid))
        ]
      ]
    ]
  ]

  forget_known_network_holds :
      (path : String)
      → P (finish_forget std parse_url digest api c w s r path (forget_known_network c s))
  unfolding forget_known_network finish_forget
  forget_known_network_holds path = elim (Bool-cases (not c.network)) [
    | inl e ↦ rw e (same _)
    | inr e ↦ rw e (forgets path)
  ]

  connections_holds : P (post_connection std parse_url digest api c w s r)
  unfolding post_connection
  connections_holds = elim (Option-cases (allow_mutation std parse_url api r.headers)) [
    | inr (p, e) ↦ rw (e, post_connection) (same _)
    | inl e ↦ elim (Json-cases (decode_json r.content r.connection_body)) [
      | inl (p, d) ↦ rw (e, d, post_connection) (same _)
      | inr (payload, d) ↦ elim (Option-cases (validate_connection_payload std payload)) [
        | inr (p, v) ↦ rw (e, d, v, post_connection) (same _)
        | inl v ↦ rw (e, d, v, post_connection) ((start_connection_holds payload))
      ]
    ]
  ]

  standalone_holds : P (post_standalone std parse_url digest api c w s r)
  unfolding post_standalone
  standalone_holds = elim (Option-cases (allow_mutation std parse_url api r.headers)) [
    | inr (p, e) ↦ rw (e, post_standalone) (same _)
    | inl e ↦ elim (Json-cases (decode_json r.content r.standalone_body)) [
      | inl (p, d) ↦ rw (e, d, post_standalone) (same _)
      | inr (confirm, d) ↦ elim (Bool-cases (not confirm)) [
        | inl v ↦ rw (e, d, v, post_standalone) (same _)
        | inr v ↦ rw (e, d, v, post_standalone) ((start_standalone_holds))
      ]
    ]
  ]

  connect_known_holds :
      (path : String) → P (post_known_network std parse_url digest api c w s r path)
  unfolding post_known_network
  connect_known_holds path = elim (Option-cases (allow_mutation std parse_url api r.headers)) [
    | inr (p, e) ↦ rw (e, post_known_network) (same _)
    | inl e ↦ elim (Bool-cases (not (valid_profile_uuid std (std.to_lower path)))) [
      | inl v ↦ rw (e, v, post_known_network) (same _)
      | inr v ↦ rw (e, v, post_known_network) ((start_known_network_holds (std.to_lower path)))
    ]
  ]

  forget_holds : (path : String) → P (delete_known_network std parse_url digest api c w s r path)
  unfolding delete_known_network
  forget_holds path = elim (Option-cases (allow_mutation std parse_url api r.headers)) [
    | inr (p, e) ↦ rw (e, delete_known_network) (same _)
    | inl e ↦ elim (Bool-cases (not (valid_profile_uuid std (std.to_lower path)))) [
      | inl v ↦ rw (e, v, delete_known_network) (same _)
      | inr v ↦ rw (e, v, delete_known_network) (forget_known_network_holds (std.to_lower path))
    ]
  ]

  dispatch_holds : (route : Route) → P (dispatch std parse_url digest api c w s r route)
  unfolding dispatch
  dispatch_holds (Route.forget path) = forget_holds path
  dispatch_holds (Route.connect_known path) = connect_known_holds path
  dispatch_holds Route.connections = connections_holds
  dispatch_holds Route.standalone = standalone_holds
  dispatch_holds Route.session = (same _)
  dispatch_holds Route.setup = (same _)
  dispatch_holds Route.list_networks = (same _)
  dispatch_holds Route.list_known = (same _)
  dispatch_holds (Route.operation id) = (same _)
  dispatch_holds Route.not_found = (same _)

  -- What holds of a request without an effect, of each call of a start method and of the forgetting,
  -- holds of every request.
  pub serve_http_holds : P (serve_http std parse_url digest api c w s r)
  unfolding serve_http
  serve_http_holds = elim (Bool-cases (is_session r.route)) [
    | inl e ↦ rw (e, serve_http) (dispatch_holds r.route)
    | inr e ↦ elim (Option-cases (allow_session api r.headers)) [
      | inr (p, l) ↦ rw (e, l, serve_http) (same _)
      | inl l ↦ rw (e, l, serve_http) (dispatch_holds r.route)
    ]
  ]
