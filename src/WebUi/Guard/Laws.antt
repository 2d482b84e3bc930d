-- ===== src/WebUi/Guard/Laws.antt =====
-- What the checks of internal/webui/api.go let through.
use onboardd.Prelude.{
  String, true, Option, none, some, inl, inr, Bool-cases, Option-cases, ap, ◌∙◌, ◌==◌, string_eq,
  eq_iff, ◌≡◌, ◌≢◌, ◌↔◌, refl, arith,
}
use onboardd.GoError.{Result, ok, err}
use onboardd.SetupFlow.Types.{ConnectionRequest}
use onboardd.NetworkManager.Settings as Nm
use onboardd.NetworkManager.Settings.{
  Std, InfrastructureOptions, valid_ssid, valid_priority, check_infrastructure,
}
use onboardd.WebUi.Guard.{
  Api, Headers, Url, normalize_origin, request_origin, same_origin, allow_origin, allow_mutation,
  allow_session, valid_psk, validate_connection_payload,
}

-- The options of a profile, with the network of a payload.
abbrev pub options_for : InfrastructureOptions → ConnectionRequest → InfrastructureOptions
options_for o payload = record o {
  ssid = payload.ssid;
  password = payload.password;
  is_open = payload.is_open;
  hidden = payload.hidden;
}

-- For a profile with an interface and a priority in range, the browser's checks accept a payload
-- exactly if the checks of the profile that is built from it do.
pub validate_connection_payload_iff :
    (std : Std) (o : InfrastructureOptions) (payload : ConnectionRequest)
    → o.interface ≢ ""
    → valid_priority o.priority ≡ true
    → (validate_connection_payload std payload ≡ none)
      ↔ (check_infrastructure std (options_for o payload) ≡ none)
unfolding validate_connection_payload valid_psk check_infrastructure valid_ssid Nm.valid_psk
validate_connection_payload_iff std o payload named ranked = ground (arith, eq_iff o.interface "")

-- The origin of a request that may change something: it is missing, or it is a plain origin that is
-- the portal's or the one of the host that the request names.
pub data Local (std : Std) (parse_url : String → Option Url) (api : Api) (h : Headers)
    : Type 0 where
  missing : h.origin ≡ "" → Local std parse_url api h
  canonical :
      normalize_origin std parse_url h.origin ≡ ok api.canonical_origin → Local std parse_url api h
  own_host :
      normalize_origin std parse_url h.origin ≡ ok (request_origin std parse_url h)
      → Local std parse_url api h

module _ (std : Std) (parse_url : String → Option Url) (api : Api) (h : Headers) where
  same_origin-Local :
      (r : Result String)
      → normalize_origin std parse_url h.origin ≡ r
      → same_origin std parse_url api h r ≡ true
      → Local std parse_url api h
  unfolding same_origin
  same_origin-Local (err e) same p = ground arith
  same_origin-Local (ok n) same p = elim (Bool-cases (n == api.canonical_origin)) [
    | inl e ↦ canonical (same ∙ ap ok ((eq_iff n api.canonical_origin).0 e))
    | inr ne ↦
        let e : (n == request_origin std parse_url h) ≡ true = ground arith in
        own_host (same ∙ ap ok ((eq_iff n (request_origin std parse_url h)).0 e))
  ]

  pub allow_origin-Local : allow_origin std parse_url api h ≡ none → Local std parse_url api h
  unfolding allow_origin
  allow_origin-Local p = elim (Bool-cases (h.origin == "")) [
    | inl e ↦ missing ((eq_iff h.origin "").0 e)
    | inr ne ↦ same_origin-Local (normalize_origin std parse_url h.origin) refl (ground arith)
  ]

  pub allow_mutation-token : allow_mutation std parse_url api h ≡ none → h.csrf ≡ api.csrf_token
  unfolding allow_mutation
  allow_mutation-token p = ground (arith, eq_iff h.csrf api.csrf_token)

  pub allow_mutation-Local : allow_mutation std parse_url api h ≡ none → Local std parse_url api h
  unfolding allow_mutation
  allow_mutation-Local p = allow_origin-Local (ground arith)

pub allow_session-cookie :
    (api : Api) (h : Headers) → allow_session api h ≡ none → h.cookie ≡ some api.session_token
unfolding allow_session
allow_session-cookie api h p = elim (Option-cases h.cookie) [
  | inl e ↦ ground arith
  | inr (value, e) ↦ ground (arith, eq_iff value api.session_token)
]
