-- ===== src/WebUi/Handoff.antt =====
-- The destinations that the browser is shown after the setup: `handoffFromConfig` of
-- internal/webui/options.go, the standalone password that internal/cli/setup.go adds, and
-- `browserHandoff` of internal/webui/api.go.
mod Laws
use onboardd.Prelude.{
  ℕ, String, Bool, true, false, ◌&&◌, ◌||◌, Option, none, some, Option-cases, Bool-cases, inl, inr,
  eq_iff, ◌==◌, ◌!=◌, ℕ_eq, string_eq, if◌then◌else◌, refl, ◌≡◌, ◌≢◌, arith,
}
use onboardd.GoError.{new, Result, ok, err}
use onboardd.AppConfig.Types.{Config}

pub record Application : Type 0 where
  pub label : String
  pub url : String

pub record Access : Type 0 where
  pub ssid : String
  pub password : String

pub record Handoff : Type 0 where
  pub setup_url : String
  pub application : Option Application
  pub standalone : Option Access
  pub health_check_url : String
  pub show_standalone_credentials : Bool

pub record ApplicationResponse : Type 0 where
  pub label : String
  pub url : String
  pub ready : Bool

pub record HandoffResponse : Type 0 where
  pub setup_url : String
  pub application : Option ApplicationResponse
  pub standalone : Option Access

-- What the file uses of Go's standard library: `strings.ToLower` of `strings.TrimSpace`, whether
-- `strings.Contains` finds a dot, and the text of the URL of a host name and a port, which is left
-- out where there is none.
pub record Names : Type 0 where
  pub normalize : String → String
  pub has_dot : String → Bool
  pub local_url : String → Option ℕ → String

unfoldable pub handoff_from_config : Names → Config → String → Result Handoff
handoff_from_config names config given =
    let hostname = names.normalize given in
    if hostname == "" || names.has_dot hostname
    then err (new "Avahi hostname must be one non-empty label")
    else ok (record {
      setup_url =
          names.local_url hostname
            (if config.portal.listener_port != 80 then some config.portal.listener_port else none);
      application =
          if config.handoff.application_url != ""
          then some (record {
            label = config.handoff.application_label;
            url = config.handoff.application_url;
          })
          else none;
      standalone =
          if config.network.standalone_enabled
          then some (record { ssid = config.network.standalone.ssid; password = "" })
          else none;
      health_check_url = config.handoff.health_check_url;
      show_standalone_credentials = config.handoff.show_standalone_credentials;
    })

abbrev give_password : String → Option Access → Option Access
give_password password none = none
give_password password (some access) = some (record access { password = password })

-- The standalone password, which is read where standalone mode is enabled.
unfoldable pub add_password : Config → String → Handoff → Handoff
add_password config password handoff =
    if config.network.standalone_enabled && handoff.show_standalone_credentials
    then record handoff { standalone = give_password password handoff.standalone }
    else handoff

-- `checker` is the readiness check where there is one.
unfoldable pub is_ready : Option (String → Bool) → String → Bool
is_ready checker url = elim checker [ none ↦ url == "" | some ready ↦ url == "" || ready url ]

abbrev application_response : Bool → Application → ApplicationResponse
application_response ready application = record {
  label = application.label;
  ready = ready;
  url = if ready then application.url else "";
}

abbrev shown_access : Bool → Access → Access
shown_access show access = record {
  ssid = access.ssid;
  password = if show then access.password else "";
}

abbrev map_some {ℓ κ} : {A : Type ℓ} {B : Type κ} → (A → B) → Option A → Option B
map_some f none = none
map_some f (some a) = some (f a)

unfoldable pub browser_handoff : Option Handoff → Option (String → Bool) → Option HandoffResponse
unfolding is_ready
browser_handoff none checker = none
browser_handoff (some info) checker = some (record {
  setup_url = info.setup_url;
  application =
      map_some (application_response (is_ready checker info.health_check_url)) info.application;
  standalone = map_some (shown_access info.show_standalone_credentials) info.standalone;
})
