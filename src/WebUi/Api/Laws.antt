-- ===== src/WebUi/Api/Laws.antt =====
-- What a request does to the service: internal/webui/api.go.
use onboardd.Prelude.{
  ℕ, String, true, Option, none, some, [], inl, inr, Option-cases, Bool-cases, refl, ◌≡◌, ◌⊎◌,
  arith, string_eq,
}
use onboardd.GoError.{Result, ok, err}
use onboardd.NetworkManager.Settings.{Std}
use onboardd.SetupFlow.Types.{OperationKind}
use onboardd.SetupFlow.Slot.{Service, Action, start}
use onboardd.SetupFlow.Slot.Reach.{starts, no_id, Reach, here, next}
use onboardd.SetupFlow.Reads.{Capabilities}
use onboardd.WebUi.Guard.{Api, Headers, Url, Problem, allow_session, allow_mutation}
use onboardd.WebUi.Guard.Laws.{
  Local, allow_mutation-token, allow_mutation-Local, allow_session-cookie,
}
use onboardd.WebUi.Api.{
  Request, World, Served, Route, delete_known_network, post_known_network, post_connection,
  post_standalone, dispatch, serve_http, is_session,
}

-- What a request needs before it may change the service.
pub record Allowed (std : Std) (parse_url : String → Option Url) (api : Api) (h : Headers)
    : Type 0 where
  pub unlocked : h.cookie ≡ some api.session_token
  pub token : h.csrf ≡ api.csrf_token
  pub local : Local std parse_url api h

module _ (std : Std) (parse_url : String → Option Url) (digest : String → String) (api : Api)
    (c : Capabilities) (w : World) (s : Service) (r : Request) where
  -- The service is as it was, and the backend was told to forget nothing.
  abbrev pub Untouched : Served → Type 0
  Untouched x = (x.0 ≡ s) × (x.1 ≡ [])

  refused_by :
      (route : Route) (p : Problem)
      → allow_mutation std parse_url api r.headers ≡ some p
      → Untouched (dispatch std parse_url digest api c w s r route)
  unfolding dispatch delete_known_network post_known_network post_connection post_standalone
  refused_by (Route.forget path) p e = rw (e, dispatch, delete_known_network) (refl, refl)
  refused_by (Route.connect_known path) p e = rw (e, dispatch, post_known_network) (refl, refl)
  refused_by Route.connections p e = rw (e, dispatch, post_connection) (refl, refl)
  refused_by Route.standalone p e = rw (e, dispatch, post_standalone) (refl, refl)
  refused_by Route.session p e = (refl, refl)
  refused_by Route.setup p e = (refl, refl)
  refused_by Route.list_networks p e = (refl, refl)
  refused_by Route.list_known p e = (refl, refl)
  refused_by (Route.operation id) p e = (refl, refl)
  refused_by Route.not_found p e = (refl, refl)

  -- A handler that changes the service has checked the token and the origin.
  dispatch-checked :
      (route : Route)
      → Untouched (dispatch std parse_url digest api c w s r route)
        ⊎ (allow_mutation std parse_url api r.headers ≡ none)
  dispatch-checked route = elim (Option-cases (allow_mutation std parse_url api r.headers)) [
    | inl e ↦ inr e
    | inr (p, e) ↦ inl (refused_by route p e)
  ]

  dispatch-session :
      (route : Route)
      → is_session route ≡ true
      → Untouched (dispatch std parse_url digest api c w s r route)
  unfolding dispatch
  dispatch-session Route.session p = (refl, refl)
  dispatch-session route p = ground arith

  -- A request leaves the service as it is and has the backend forget no profile, or it carries the
  -- session cookie and the CSRF token, and its origin is missing, the portal's, or that of the host
  -- it names.
  pub serve_http-Allowed :
      Untouched (serve_http std parse_url digest api c w s r) ⊎ Allowed std parse_url api r.headers
  unfolding serve_http
  serve_http-Allowed = elim (Bool-cases (is_session r.route)) [
    | inl e ↦ rw e (inl (dispatch-session r.route e))
    | inr e ↦ elim (Option-cases (allow_session api r.headers)) [
      | inr (p, l) ↦ inl (rw (e, l) (refl, refl))
      | inl l ↦ elim (dispatch-checked r.route) [
        | inl same ↦ inl (rw (e, l) same)
        | inr m ↦ inr (record {
          unlocked = allow_session-cookie api r.headers l;
          token = allow_mutation-token std parse_url api r.headers m;
          local = allow_mutation-Local std parse_url api r.headers m;
        })
      ]
    ]
  ]

  pub start-Reach :
      (kind : OperationKind) (network : String) (action : Action) (id : Result String) (now : ℕ)
      → ((i : String) → id ≡ ok i → s.operations i ≡ none)
      → Reach s (start s kind network action id now).0
  start-Reach kind network action (ok i) now fresh =
      next here (starts s kind network action i now (fresh i refl))
  start-Reach kind network action (err e) now fresh = next here (no_id s kind network action e now)
