-- ===== src/WebUi/Api/Tests.antt =====
-- Tests of internal/webui/api.go: standalone mode is confirmed by a browser that has the session.
use onboardd.Prelude.{String, true, false, Option, none, some, [], refl, ◌≡◌, ◌⊎◌}
use onboardd.GoError.{new, ok, err}
use onboardd.SetupFlow.Types.{Mode}
use onboardd.SetupFlow.Slot.{
  Service, new_service, is_running, active_operation, reserve, start, trim_history, begin_operation,
}
use onboardd.SetupFlow.Slot.Reach.{here}
use onboardd.SetupFlow.Reads.{Capabilities, start_standalone}
use onboardd.NetworkManager.Settings.{Std}
use onboardd.WebUi.Guard.{Api, Url, allow_session, allow_mutation, allow_origin}
use onboardd.WebUi.Exchange.{Body, Delivery, decode_json, start_operation, accept_operation}
use onboardd.WebUi.Api.{
  Reply, is_session, post_session, Request, World, Route, begin_started, post_standalone, dispatch,
  serve_http,
}
use onboardd.WebUi.Api.Laws.{Untouched, Allowed, serve_http-Allowed}
use onboardd.WebUi.Api.Secrets.{is_refusal, LogsIn, serve_http-Discloses}
use onboardd.WebUi.Api.Release.{Settled, serve_http-Settled}

abbrev std : Std
std = record {
  is_hex = λ text. true;
  replace_all = λ text old new. text;
  to_lower = λ text. text;
  random_uuid = err (new "no random bytes");
  parse_cidr = λ cidr. none;
}

abbrev portal : Api
portal = record {
  canonical_origin = "http://setup.local";
  csrf_token = "c1";
  session_token = "s1";
  password_digest = "secret-phrase";
  handoff = none;
}

abbrev both : Capabilities
both = record { network = true; standalone = true }

abbrev first : String
first = "5f1c"

abbrev world : World
world = record {
  mode = ok Mode.setup;
  found = ok [];
  shuffle = λ found. found;
  known = ok [];
  forget_error = none;
  new_id = ok first;
  now = 7;
  delivery = Delivery.delivered;
  checker = none;
  gives_up = false;
}

abbrev no_origin : String
no_origin = ""

abbrev confirmed : Request
confirmed = record {
  headers = record {
    cookie = some "s1";
    csrf = "c1";
    origin = no_origin;
    host = "setup.local";
    tls = false;
  };
  route = Route.standalone;
  content = some "application/json";
  session_body = Body.malformed;
  connection_body = Body.malformed;
  standalone_body = Body.whole true;
}

abbrev parse : String → Option Url
parse text = none

abbrev digest : String → String
digest text = text

unfoldable served : Service
served = (serve_http std parse digest portal both world new_service confirmed).0

runs : is_running (served.operations first) ≡ true
unfolding served serve_http dispatch post_standalone allow_session allow_mutation allow_origin
    decode_json start_standalone start active_operation reserve trim_history begin_started
    start_operation accept_operation begin_operation
runs = refl

serve_http-Allowed_example :
    Untouched std parse digest portal both world new_service confirmed
      (serve_http std parse digest portal both world new_service confirmed)
    ⊎ Allowed std parse portal confirmed.headers
serve_http-Allowed_example =
    serve_http-Allowed std parse digest portal both world new_service confirmed

serve_http-Settled_example :
    Settled new_service first (serve_http std parse digest portal both world new_service confirmed)
serve_http-Settled_example =
    serve_http-Settled std parse digest portal both world new_service confirmed first here
      (λ i e. refl) refl

-- A login with the password, without an origin.
abbrev login : Request
login = record {
  headers = record {
    cookie = none;
    csrf = "";
    origin = no_origin;
    host = "setup.local";
    tls = false;
  };
  route = Route.session;
  content = some "application/json";
  session_body = Body.whole "secret-phrase";
  connection_body = Body.malformed;
  standalone_body = Body.malformed;
}

logs_in : (serve_http std parse digest portal both world new_service login).2 ≡ Reply.unlocked "s1"
unfolding serve_http dispatch post_session allow_origin decode_json
logs_in = refl

serve_http-Discloses_example :
    let reply = (serve_http std parse digest portal both world new_service login).2 in
    (is_refusal reply ≡ true)
    ⊎ (login.headers.cookie ≡ some portal.session_token)
    ⊎ (is_session login.route ≡ true)
      × LogsIn std parse digest portal both world new_service login reply
serve_http-Discloses_example =
    serve_http-Discloses std parse digest portal both world new_service login
