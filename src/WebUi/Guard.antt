-- ===== src/WebUi/Guard.antt =====
-- The checks of internal/webui/api.go that come before a handler: the session, the CSRF token, the
-- origin and the connection payload. `Std` is the standard library of the network profiles' checks.
pub mod Laws
mod Tests
use Prim.Native.String.{◌++◌, len, slice}
use onboardd.Prelude.{
  ℕ, ◌+◌, String, Bool, true, false, not, ◌&&◌, ◌||◌, Option, none, some, leb, ◌==◌, ◌!=◌, ℕ_eq,
  string_eq, if◌then◌else◌,
}
use onboardd.GoError.{Error, new, Result, ok, err}
use onboardd.NetworkManager.Settings.{Std}
use onboardd.WebUi.Handoff.{Handoff}
use onboardd.SetupFlow.Types.{Failure, ConnectionRequest}

pub record Url : Type 0 where
  pub scheme : String
  pub host : String
  pub has_user : Bool
  pub path : String
  pub raw_query : String
  pub fragment : String

-- What a check reads of a request: the headers, which are empty where they are missing, the session
-- cookie, the host, and whether it came over TLS.
pub record Headers : Type 0 where
  pub cookie : Option String
  pub csrf : String
  pub origin : String
  pub host : String
  pub tls : Bool

pub record Api : Type 0 where
  pub canonical_origin : String
  pub csrf_token : String
  pub session_token : String
  pub password_digest : String
  pub handoff : Option Handoff

-- The status and the failure that a handler answers.
abbrev pub Problem : Type 0
Problem = ℕ × Failure

abbrev pub problem : ℕ → String → String → Problem
problem status code message = (status, record { code = code; message = message })

abbrev pub request_not_allowed : Problem
request_not_allowed = problem 403 "request_not_allowed" "Refresh the setup page and try again."

abbrev pub authentication_required : Problem
authentication_required =
    problem 401 "authentication_required" "Enter the administrator password to continue."

module _ (std : Std) (parse_url : String → Option Url) where
  unfoldable pub normalize_origin : String → Result String
  normalize_origin value = elim (parse_url value) [
    | none ↦ err (new "canonical origin must be an absolute HTTP URL")
    | some parsed ↦
        if (parsed.scheme != "http" && parsed.scheme != "https") || parsed.host == ""
        then err (new "canonical origin must be an absolute HTTP URL")
        else if parsed.has_user
            || parsed.raw_query != ""
            || parsed.fragment != ""
            || (parsed.path != "" && parsed.path != "/")
        then err (new "canonical origin must not include credentials, path, query, or fragment")
        else ok (std.to_lower parsed.scheme ++ "://" ++ std.to_lower parsed.host)
  ]

  unfoldable pub request_origin : Headers → String
  request_origin h = (if h.tls then "https" else "http") ++ "://" ++ std.to_lower h.host

  unfoldable pub same_origin : Api → Headers → Result String → Bool
  unfolding request_origin
  same_origin api h (err e) = false
  same_origin api h (ok normalized) =
      normalized == api.canonical_origin || normalized == request_origin h

  unfoldable pub allow_origin : Api → Headers → Option Problem
  unfolding normalize_origin same_origin
  allow_origin api h =
      if h.origin == ""
      then none
      else if same_origin api h (normalize_origin h.origin)
      then none
      else some request_not_allowed

  unfoldable pub allow_mutation : Api → Headers → Option Problem
  unfolding allow_origin
  allow_mutation api h =
      if h.csrf != api.csrf_token then some request_not_allowed else allow_origin api h

unfoldable pub allow_session : Api → Headers → Option Problem
allow_session api h = elim h.cookie [
  | some value ↦ if value == api.session_token then none else some authentication_required
  | none ↦ some authentication_required
]

unfoldable pub valid_psk : Std → String → Bool
valid_psk std password =
    if leb 8 (len password) && leb (len password) 63
    then true
    else if len password != 64
    then false
    else std.is_hex password

abbrev is_dash : String → ℕ → Bool
is_dash value i = slice value i (i + 1) == "-"

unfoldable pub valid_profile_uuid : Std → String → Bool
valid_profile_uuid std value =
    if len value != 36
      || not (is_dash value 8)
      || not (is_dash value 13)
      || not (is_dash value 18)
      || not (is_dash value 23)
    then false
    else std.is_hex (std.replace_all value "-" "")

unfoldable pub validate_connection_payload : Std → ConnectionRequest → Option Problem
unfolding valid_psk
validate_connection_payload std payload =
    if len payload.ssid == 0 || not (leb (len payload.ssid) 32)
    then some (
        problem 400 "invalid_network_name"
          "Enter a Wi-Fi network name between 1 and 32 characters.")
    else if payload.is_open
    then (if payload.password != ""
        then some (problem 400 "unexpected_password" "An open network does not use a password.")
        else none)
    else if not (valid_psk std payload.password)
    then some (problem 400 "invalid_password" "Enter a Wi-Fi password between 8 and 63 characters.")
    else none
