-- ===== src/AppConfig/Validate.antt =====
-- The checks of internal/appconfig/config.go. `strings.TrimSpace`, `net/url` and the parsing of a
-- prefix by `net/netip` are parameters.
pub mod Laws
mod Tests
use Prim.Native.String.{find, len, slice}
use onboardd.Prelude.{
  ℕ, ◌+◌, ◌-◌, ◌/◌, ◌%◌, ◌^◌, String, Bool, true, false, not, ◌&&◌, ◌||◌, Option, none, some, List,
  [], ◌∷◌, bool_ne, ltb, leb, ◌==◌, ◌!=◌, ℕ_eq, string_eq, if◌then◌else◌,
}
use onboardd.GoError.{Error, new, wrap, wrap_some}
use onboardd.Connectivity
use onboardd.Recovery.Addr.{Addr, v4, v6, invalid}
use onboardd.Captive.Session.{Prefix}
use onboardd.AppConfig.Types.{
  Branding, Network, Portal, Handoff, Config, current_schema_version, captive_public_port,
}

-- What the checks read of a `url.URL`.
pub record Url : Type 0 where
  pub scheme : String
  pub host : String
  pub has_user : Bool
  pub fragment : String

pub record Texts : Type 0 where
  pub trim_space : String → String
  pub parse_url : String → Option Url
  pub parse_prefix : String → Option Prefix

-- `strings.Contains`
abbrev pub text_contains : String → String → Bool
text_contains text part = leb (find text part) (len text)

abbrev pub hex_digits : String
hex_digits = "0123456789abcdefABCDEF"

abbrev pub is_hex_at : String → ℕ → Bool
is_hex_at text i =
    let digit = slice text i (i + 1) in len digit == 1 && text_contains hex_digits digit

-- `colorPattern`: ^#[0-9A-Fa-f]{6}$
unfoldable pub is_color : String → Bool
is_color text =
    len text == 7
    && slice text 0 1 == "#"
    && is_hex_at text 1
    && is_hex_at text 2
    && is_hex_at text 3
    && is_hex_at text 4
    && is_hex_at text 5
    && is_hex_at text 6

-- In a prefix of at most 30 bits: neither the first address, and the next one is in it too.
abbrev pub is_host : ℕ → ℕ → Bool
is_host a bits =
    let size = 2 ^ (32 - bits) in
    a % size != 0 && ltb (a + 1) (2 ^ 32) && (a + 1) / size == a / size

unfoldable pub validate_standalone_address : Texts → String → Option Error
validate_standalone_address texts address = elim (texts.parse_prefix address) [
  | none ↦ some (new "network.standalone.address must be a valid IPv4 host address and prefix")
  | some prefix ↦ elim prefix.addr [
    | v4 a ↦
        if ltb 30 prefix.bits || not (is_host a prefix.bits)
        then some (
            new
              "network.standalone.address must identify a usable host in a subnet with client addresses")
        else none
    | v6 a zone ↦
        some (new "network.standalone.address must be a valid IPv4 host address and prefix")
    | invalid ↦ some (new "network.standalone.address must be a valid IPv4 host address and prefix")
  ]
]

module _ (texts : Texts) where
  abbrev pub is_blank : String → Bool
  is_blank text = texts.trim_space text == ""

  unfoldable pub validate_branding : Branding → Option Error
  validate_branding b =
      if not (is_color b.primary_color)
      then some (new "branding.primary_color must be a six-digit hexadecimal color")
      else if not (is_color b.background_color)
      then some (new "branding.background_color must be a six-digit hexadecimal color")
      else if is_blank b.title
      then some (new "branding.text.title must not be empty")
      else none

  -- The checks of standalone mode, where it is enabled.
  unfoldable pub validate_standalone : Network → Option Error
  validate_standalone n =
      if not n.standalone_enabled
      then none
      else if is_blank n.standalone.ssid
      then some (new "network.standalone.ssid must not be empty when standalone mode is enabled")
      else if is_blank n.standalone.password_file
      then some
          (new "network.standalone.password_file must not be empty when standalone mode is enabled")
      else validate_standalone_address texts n.standalone.address

  -- From the check of the modes on.
  unfoldable pub validate_modes : Network → Option Error
  validate_modes n =
      if not n.infrastructure_enabled && not n.standalone_enabled
      then some (new "at least one production network mode must be enabled")
      else if is_blank n.provisioning.ssid
      then some (new "network.provisioning.ssid must not be empty")
      else if is_blank n.provisioning.password_file
      then some (new "network.provisioning.password_file must not be empty")
      else validate_standalone n

  unfoldable pub validate_network : Network → Option Error
  validate_network n =
      if is_blank n.interface
      then some (new "network.interface must not be empty")
      else elim (Connectivity.validate n.requirement) [
        | some e ↦ some (wrap "network.requirement" e)
        | none ↦ validate_modes n
      ]

  unfoldable pub validate_portal : Portal → Option Error
  validate_portal p =
      if p.listener_port == 0
      then some (new "portal.listener_port must be between 1 and 65535")
      else if p.listener_port == captive_public_port
      then some (new "portal.listener_port must differ from the fixed captive public port")
      else if is_blank p.password_file
      then some (new "portal.password_file must not be empty")
      else none

  unfoldable pub validate_http_url : String → Option Error
  validate_http_url value = elim (texts.parse_url value) [
    | none ↦ some (new "must be an absolute HTTP or HTTPS URL")
    | some url ↦
        if url.host == "" || (url.scheme != "http" && url.scheme != "https")
        then some (new "must be an absolute HTTP or HTTPS URL")
        else if url.has_user || url.fragment != ""
        then some (new "must not contain credentials or a fragment")
        else none
  ]

  -- A URL with a template is checked once it is rendered.
  unfoldable pub check_url : Bool → String → Option Error
  check_url rendered value =
      if value != "" && (rendered || not (text_contains value "{{"))
      then validate_http_url value
      else none

  abbrev pub check_urls : Bool → Handoff → Option Error
  check_urls rendered h = elim (check_url rendered h.application_url) [
    | some e ↦ some e
    | none ↦ check_url rendered h.health_check_url
  ]

  unfoldable pub validate_handoff : Handoff → Bool → Option Error
  validate_handoff h rendered =
      if bool_ne (is_blank h.application_label) (is_blank h.application_url)
      then some
          (new "handoff.application_label and handoff.application_url must be configured together")
      else if not (is_blank h.health_check_url) && is_blank h.application_url
      then some (new "handoff.health_check_url requires handoff.application_url")
      else if text_contains h.application_label "\r" || text_contains h.application_label "\n"
      then some (new "handoff.application_label must not contain line breaks")
      else check_urls rendered h

  abbrev pub or_else : Option Error → Option Error → Option Error
  or_else none e = e
  or_else (some e) f = some e

  unfoldable pub validate : Config → Option Error
  validate c =
      if c.schema_version != current_schema_version
      then some (new "unsupported schema_version")
      else if is_blank c.product.name
      then some (new "product.name must not be empty")
      else if is_blank c.product.device_name
      then some (new "product.device_name must not be empty")
      else or_else (validate_branding c.branding) (
          or_else (validate_network c.network)
            (or_else (validate_portal c.portal) (validate_handoff c.handoff false)))
