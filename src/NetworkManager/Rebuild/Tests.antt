-- ===== src/NetworkManager/Rebuild/Tests.antt =====
-- Tests of `updateAutoconnect`: the profile of a secured network is committed.
use onboardd.Prelude.{
  List, Option, Bool-cases, inl, inr, ◌==◌, ℕ, String, true, false, none, some, string_eq, eq_iff,
  refl, ◌≡◌, [], ◌∷◌, arith,
}
use onboardd.Prelude.Int.{pos}
use onboardd.GoError.{ok}
use onboardd.NetworkManager.Types.{Role}
use onboardd.NetworkManager.Settings.{
  InfrastructureOptions, Variant, Section, text, flag, int32, bytes, addresses, Settings, metadata,
  Std, valid_ssid, valid_psk, valid_uuid, valid_priority, resolve_uuid, check_infrastructure,
  infrastructure_settings, build_infrastructure_settings,
}
use onboardd.NetworkManager.Reader.{lookup, get, read_profile, profile_in_memory}
use onboardd.NetworkManager.Rebuild.{update_autoconnect}
use onboardd.NetworkManager.Rebuild.Again.{Answers, Kept}
use onboardd.NetworkManager.Rebuild.Laws.{update_autoconnect-Kept}

abbrev canonical : String
canonical = "7d3a0b9e-1c2d-4e5f-8a6b-0c1d2e3f4a5b"

abbrev fixed : Std
fixed = record {
  is_hex = λ text. true;
  replace_all = λ text old new. text;
  to_lower = λ text. text;
  random_uuid = ok canonical;
  parse_cidr = λ cidr. some ("10.42.0.1", 24);
}

abbrev empty : String
empty = ""

abbrev home : InfrastructureOptions
home = record {
  id = empty;
  uuid = empty;
  interface = "wlan0";
  ssid = "home";
  password = "password";
  is_open = false;
  hidden = false;
  autoconnect = false;
  priority = pos 10;
  pending = true;
}

builds :
    build_infrastructure_settings fixed home
    ≡ ok (infrastructure_settings home canonical, canonical)
unfolding build_infrastructure_settings check_infrastructure valid_ssid valid_psk valid_priority
    resolve_uuid
builds = refl

resolves : resolve_uuid fixed canonical ≡ ok canonical
unfolding resolve_uuid valid_uuid
resolves = refl

abbrev keep_text : String → String
keep_text t = t

abbrev print_cidr : String → ℕ → String
print_cidr address prefix = address

abbrev said_id : String
said_id = "onboardd Wi-Fi home"

-- Each section as it is written and as it is answered: NetworkManager leaves the password and the
-- default of `hidden` out, and adds keys.
abbrev Exchange : Type 0
Exchange = List (String × Section × Section)

abbrev exchanged : Exchange
exchanged =
    (
      "802-11-wireless-security",
      ("key-mgmt", text "wpa-psk") ∷ ("psk", text "password") ∷ [],
      ("key-mgmt", text "wpa-psk") ∷ [],
    )
    ∷ (
      "connection",
      ("id", text said_id)
          ∷ ("uuid", text canonical)
          ∷ ("type", text "802-11-wireless")
          ∷ ("interface-name", text "wlan0")
          ∷ ("autoconnect", flag false)
          ∷ ("autoconnect-priority", int32 (pos 10))
          ∷ [],
      ("id", text said_id)
          ∷ ("uuid", text canonical)
          ∷ ("type", text "802-11-wireless")
          ∷ ("interface-name", text "wlan0")
          ∷ ("autoconnect", flag false)
          ∷ ("autoconnect-priority", int32 (pos 10))
          ∷ ("timestamp", int32 (pos 7))
          ∷ [],
    )
    ∷ (
      "802-11-wireless",
      ("mode", text "infrastructure") ∷ ("ssid", bytes "home") ∷ ("hidden", flag false) ∷ [],
      ("mode", text "infrastructure")
          ∷ ("ssid", bytes "home")
          ∷ ("security", text "802-11-wireless-security")
          ∷ [],
    )
    ∷ (
      "ipv4",
      ("method", text "auto") ∷ [],
      ("method", text "auto") ∷ ("addresses", addresses []) ∷ [],
    )
    ∷ ("ipv6", ("method", text "auto") ∷ [], ("method", text "auto") ∷ [])
    ∷ ("user", metadata Role.infrastructure true, metadata Role.infrastructure true)
    ∷ []

abbrev wrote_all : Exchange → Settings
wrote_all [] = []
wrote_all ((name, wrote, answer) ∷ rest) = (name, wrote) ∷ wrote_all rest

abbrev answered_all : Exchange → Settings
answered_all [] = []
answered_all ((name, wrote, answer) ∷ rest) = (name, answer) ∷ answered_all rest

abbrev answered : Settings
answered = answered_all exchanged

abbrev secrets : Settings
secrets = ("802-11-wireless-security", ("psk", text "password") ∷ []) ∷ []

module _ (section key : String) (value : Variant) (not_psk : (key == "psk") ≡ false)
    (not_data : (key == "data") ≡ false) where
  abbrev Fits : Option Variant → Option Variant → Type 0
  Fits wrote answer = wrote ≡ some value → Answers key value answer

  abbrev AllFit : Exchange → Type 0
  AllFit [] = Unit
  AllFit ((name, wrote, answer) ∷ rest) = Fits (lookup key wrote) (lookup key answer) × AllFit rest

  all_fit :
      (es : Exchange)
      → AllFit es
      → Fits (get (wrote_all es) section key) (get (answered_all es) section key)
  all_fit [] fits = λ h. ground arith
  all_fit ((name, wrote, answer) ∷ rest) (fit, fits) = elim (Bool-cases (name == section)) [
    | inl found ↦ rw (found, get, lookup) fit
    | inr other ↦ rw (other, get, lookup) (all_fit rest fits)
  ]

  exchanged-AllFit : AllFit exchanged
  unfolding metadata
  exchanged-AllFit = (
    (λ h. ground (arith, eq_iff key "psk", eq_iff "psk" key)),
    (
      (λ h. ground arith),
      (
        (λ h. ground (
          arith,
          eq_iff key "hidden",
          eq_iff "hidden" key,
          eq_iff "security" key,
          eq_iff "hidden" "security",
        )),
        ((λ h. ground arith), ((λ h. inl h), ((λ h. inl h), tt))),
      ),
    ),
  )

  written :
      Fits (get (infrastructure_settings home canonical) section key) (get answered section key)
  unfolding infrastructure_settings
  written = all_fit exchanged exchanged-AllFit

kept : Kept (infrastructure_settings home canonical) answered secrets
unfolding infrastructure_settings
kept = record {
  written = λ section key value h not_psk not_data. written section key value not_psk not_data h;
  marked = λ key. refl;
  secured = refl;
  secret = refl;
}

update_autoconnect-Kept_example :
    update_autoconnect fixed print_cidr
      (read_profile keep_text "/settings/1" answered "/etc/home")
      true
      (ok answered)
      (ok secrets)
      none
    ≡ (
      some (
        infrastructure_settings (record home { autoconnect = true; pending = false }) canonical,
        profile_in_memory keep_text "/etc/home",
      ),
      none,
    )
update_autoconnect-Kept_example =
    update_autoconnect-Kept fixed keep_text print_cidr "/settings/1" "/etc/home" home
      (infrastructure_settings home canonical) answered secrets canonical true builds resolves kept
