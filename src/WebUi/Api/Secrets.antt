-- ===== src/WebUi/Api/Secrets.antt =====
-- Who is answered more than a failure: internal/webui/api.go.
use onboardd.Prelude.{
  String, Bool, true, false, Option, some, inl, inr, Option-cases, Bool-cases, refl, ◌≡◌, ◌⊎◌, ◌!=◌,
  string_eq, eq_iff, arith,
}
use onboardd.NetworkManager.Settings.{Std}
use onboardd.SetupFlow.Slot.{Service}
use onboardd.SetupFlow.Reads.{Capabilities}
use onboardd.WebUi.Guard.{Api, Url, allow_origin, allow_session}
use onboardd.WebUi.Guard.Laws.{Local, allow_origin-Local, allow_session-cookie}
use onboardd.WebUi.Exchange.{Body, whole, decoded, decode_json}
use onboardd.WebUi.Api.Cases.{Json-cases}
use onboardd.WebUi.Api.{
  Request, World, Reply, Route, nothing, failed, unlocked, post_session, dispatch, serve_http,
  is_session,
}

-- A reply that tells the client nothing but a failure.
abbrev pub is_refusal : Reply → Bool
is_refusal nothing = true
is_refusal (failed p) = true
is_refusal _ = false

decode_json-whole :
    (content : Option String) (body : Body String) (a : String)
    → decode_json content body ≡ decoded a
    → body ≡ whole a
unfolding decode_json
decode_json-whole content body a h = ground arith

module _ (std : Std) (parse_url : String → Option Url) (digest : String → String) (api : Api)
    (c : Capabilities) (w : World) (s : Service) (r : Request) where
  -- The request logs in: its body is the administrator's password, from an allowed origin, and the
  -- reply is the session token.
  pub record LogsIn (reply : Reply) : Type 0 where
    pub password : String
    pub sent : r.session_body ≡ whole password
    pub right : digest password ≡ api.password_digest
    pub local : Local std parse_url api r.headers
    pub token : reply ≡ unlocked api.session_token

  post_session-LogsIn :
      let reply = post_session std parse_url digest api c w s r in
      (is_refusal reply ≡ true) ⊎ LogsIn reply
  unfolding post_session decode_json
  post_session-LogsIn = elim (Option-cases (allow_origin std parse_url api r.headers)) [
    | inr (p, e) ↦ rw (e, post_session) (inl refl)
    | inl e ↦ elim (Json-cases (decode_json r.content r.session_body)) [
      | inl (p, d) ↦ rw (e, d, post_session) (inl refl)
      | inr (password, d) ↦ elim (Bool-cases (digest password != api.password_digest)) [
        | inl wrong ↦ rw (e, d, wrong, post_session) (inl (ground arith))
        | inr right ↦
            rw (e, d, right, post_session)
              (inr (record {
                password = password;
                sent = decode_json-whole r.content r.session_body password d;
                right = ground (arith, eq_iff (digest password) api.password_digest);
                local = allow_origin-Local std parse_url api r.headers e;
                token = refl;
              }))
      ]
    ]
  ]

  dispatch-LogsIn :
      (route : Route)
      → is_session route ≡ true
      → let reply = (dispatch std parse_url digest api c w s r route).2 in
        (is_refusal reply ≡ true) ⊎ LogsIn reply
  unfolding dispatch
  dispatch-LogsIn Route.session h = post_session-LogsIn
  dispatch-LogsIn route h = ground arith

  -- A request is answered with a failure at most, or it carries the session cookie, or it logs in with
  -- the administrator's password and gets the session token.
  pub serve_http-Discloses :
      let reply = (serve_http std parse_url digest api c w s r).2 in
      (is_refusal reply ≡ true)
      ⊎ (r.headers.cookie ≡ some api.session_token)
      ⊎ (is_session r.route ≡ true) × LogsIn reply
  unfolding serve_http
  serve_http-Discloses = elim (Bool-cases (is_session r.route)) [
    | inl e ↦
        rw (e, serve_http)
          (elim (dispatch-LogsIn r.route e) [
            | inl refusal ↦ inl refusal
            | inr logs_in ↦ inr (inr (refl, logs_in))
          ])
    | inr e ↦ elim (Option-cases (allow_session api r.headers)) [
      | inr (p, l) ↦ inl (rw (e, l, serve_http) refl)
      | inl l ↦ inr (inl (allow_session-cookie api r.headers l))
    ]
  ]
