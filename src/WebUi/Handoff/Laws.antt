-- ===== src/WebUi/Handoff/Laws.antt =====
-- What the browser learns of the configuration: internal/webui/options.go and api.go.
use onboardd.Prelude.{
  String, Bool, ◌&&◌, Option, none, some, string_eq, eq_iff, if◌then◌else◌, ◌≡◌, arith,
}
use onboardd.GoError.{ok}
use onboardd.AppConfig.Types.{Config}
use onboardd.WebUi.Handoff.{
  Handoff, HandoffResponse, Names, handoff_from_config, add_password, is_ready, browser_handoff,
}

abbrev password_of : Option HandoffResponse → String
password_of none = ""
password_of (some response) = elim response.standalone [ none ↦ "" | some access ↦ access.password ]

abbrev url_of : Option HandoffResponse → String
url_of none = ""
url_of (some response) = elim response.application [ none ↦ "" | some shown ↦ shown.url ]

-- The browser is shown the standalone password exactly if standalone mode is enabled and the
-- configuration lets it be shown, and the application's URL exactly if its health check is passed.
browser_handoff-Config :
    (names : Names) (config : Config) (given password : String) (checker : Option (String → Bool))
    (info : Handoff)
    → handoff_from_config names config given ≡ ok info
    → (password_of (browser_handoff (some (add_password config password info)) checker) ≡ (
        if config.network.standalone_enabled && config.handoff.show_standalone_credentials
        then password
        else ""))
      × (url_of (browser_handoff (some (add_password config password info)) checker) ≡ (
          if is_ready checker config.handoff.health_check_url
          then config.handoff.application_url
          else ""))
unfolding handoff_from_config add_password browser_handoff
browser_handoff-Config names config given password checker info h = (
  ground (arith, eq_iff config.handoff.application_url ""),
  ground (arith, eq_iff config.handoff.application_url ""),
)
