-- ===== src/NetworkManager/Rebuild/Again.antt =====
-- What is read of a profile that onboardd has written, and what is built from it again.
use Prim.Native.String.{◌++◌}
use onboardd.Prelude.{
  ℕ, String, Bool, true, false, not, ◌&&◌, ◌||◌, Bool-cases, if_intro, inl, inr, Option, none, some,
  List, ◌==◌, string_eq, eq_iff, if◌then◌else◌, refl, sym, ap, ◌∙◌, ◌≡◌, ◌≢◌, ◌⊎◌, ℕ_eq, arith,
}
use onboardd.Prelude.Int.{ℤ, pos, negsuc}
use onboardd.GoError.{Result, ok}
use onboardd.NetworkManager.Types.{Role, Profile}
use onboardd.NetworkManager.Settings.{
  InfrastructureOptions, Variant, text, flag, bytes, int32, Settings, Std, valid_psk, resolve_uuid,
  check_infrastructure, infrastructure_settings, build_infrastructure_settings, metadata,
}
use onboardd.NetworkManager.Reader.{
  lookup, get, variant_string, variant_bytes, variant_int32, variant_bool_default,
  variant_map_string_string, role_of, value_of, read_profile, profile_in_memory,
}
use onboardd.NetworkManager.Rebuild.{
  is_secured, profile_psk, settings_only, infrastructure_again, rebuild_infrastructure,
  rebuild_role, rebuild_owned_settings, send_rebuilt, with_secrets,
}

abbrev pub has_section : Settings → String → Bool
has_section settings section = elim (lookup section settings) [ none ↦ false | some s ↦ true ]

abbrev is_zero : ℤ → Bool
is_zero (pos n) = n == 0
is_zero (negsuc n) = false

-- The values that NetworkManager leaves out of its answer, since they are the defaults.
abbrev pub is_default : String → Variant → Bool
is_default key (flag value) = (key == "hidden" && not value) || (key == "autoconnect" && value)
is_default key (int32 value) = key == "autoconnect-priority" && is_zero value
is_default key _ = false

-- An answer for a key that was written: its value, or nothing where that is the default.
abbrev pub Answers : String → Variant → Option Variant → Type 0
Answers key value answer = (answer ≡ some value) ⊎ ((is_default key value ≡ true) × (answer ≡ none))

abbrev pub marks : Settings → List (String × String)
marks settings = variant_map_string_string (get settings "user" "data")

-- What NetworkManager answers for a profile with these settings: each value that was written but the
-- password, which is asked for separately, and the entries of the user data. It may add sections and
-- keys of its own, but no security section to an open network.
pub record Kept (settings current secrets : Settings) : Type 0 where
  pub written :
      (section key : String) (value : Variant)
      → get settings section key ≡ some value
      → (key == "psk") ≡ false
      → (key == "data") ≡ false
      → Answers key value (get current section key)
  pub marked : (key : String) → lookup key (marks current) ≡ lookup key (marks settings)
  pub secured :
      has_section current "802-11-wireless-security"
      ≡ has_section settings "802-11-wireless-security"
  pub secret :
      get secrets "802-11-wireless-security" "psk" ≡ get settings "802-11-wireless-security" "psk"

text_answered :
    (key t : String) (answer : Option Variant)
    → Answers key (text t) answer
    → variant_string answer ≡ t
text_answered key t answer h = ground arith

bytes_answered :
    (key t : String) (answer : Option Variant)
    → Answers key (bytes t) answer
    → variant_bytes answer ≡ t
bytes_answered key t answer h = ground arith

int32_answered :
    (key : String) (z : ℤ) (answer : Option Variant)
    → Answers key (int32 z) answer
    → variant_int32 answer ≡ z
int32_answered key (pos n) answer h = ground arith
int32_answered key (negsuc n) answer h = ground arith

hidden_answered :
    (value : Bool) (answer : Option Variant)
    → Answers "hidden" (flag value) answer
    → variant_bool_default answer false ≡ value
hidden_answered value answer h = ground arith

section_answered :
    (settings : Settings) (section key t : String)
    → Answers key (bytes t) (get settings section key)
    → has_section settings section ≡ true
section_answered settings section key t h = ground arith

-- The id that is shown for a profile.
abbrev pub shown_id : InfrastructureOptions → String
shown_id o = if o.id == "" then "onboardd Wi-Fi " ++ o.ssid else o.id

abbrev marked_role : Settings → Role
marked_role settings = role_of (value_of (lookup "onboardd.role" (marks settings)))

built_role :
    (o : InfrastructureOptions) (uuid : String)
    → marked_role (infrastructure_settings o uuid) ≡ Role.infrastructure
unfolding infrastructure_settings metadata
built_role o uuid =
    if_intro (λ (settings : Settings). marked_role settings ≡ Role.infrastructure) o.is_open
      (λ _.
        if_intro
          (λ (marks : List (String × String)).
            role_of (value_of (lookup "onboardd.role" marks)) ≡ Role.infrastructure)
          o.pending (λ _. refl) (λ _. refl))
      (λ _.
        if_intro
          (λ (marks : List (String × String)).
            role_of (value_of (lookup "onboardd.role" marks)) ≡ Role.infrastructure)
          o.pending (λ _. refl) (λ _. refl))

nonempty_psk : (std : Std) (password : String) → valid_psk std password ≡ true → password ≢ ""
unfolding valid_psk
nonempty_psk std password h e =
    let contradiction : true ≡ false = sym h ∙ ap (valid_psk std) e in cc

abbrev name_of : String → String → String
name_of id ssid = if id == "" then "onboardd Wi-Fi " ++ ssid else id

name_again : (id ssid : String) → name_of (name_of id ssid) ssid ≡ name_of id ssid
name_again id ssid = elim (Bool-cases (id == "")) [
  | inl unnamed ↦ rw unnamed (
      if_intro (λ (t : String). t ≡ "onboardd Wi-Fi " ++ ssid) ("onboardd Wi-Fi " ++ ssid == "")
        (λ _. refl) (λ _. refl))
  | inr named ↦ rw named (rw named refl)
]

build_given :
    (std : Std) (o : InfrastructureOptions) (uuid : String)
    → check_infrastructure std o ≡ none
    → resolve_uuid std o.uuid ≡ ok uuid
    → build_infrastructure_settings std o ≡ ok (infrastructure_settings o uuid, uuid)
unfolding build_infrastructure_settings
build_given std o uuid checked canonical = ground arith

module _ (std : Std) (trim_space : String → String) (path filename : String)
    (o : InfrastructureOptions) (uuid : String) (current secrets : Settings)
    (kept : Kept (infrastructure_settings o uuid) current secrets) where
  -- The settings name what the options name.
  abbrev ReadsAs : Profile → Type 0
  ReadsAs p =
      (p.id ≡ shown_id o)
      × (p.uuid ≡ uuid)
      × (p.interface ≡ o.interface)
      × (p.ssid ≡ o.ssid)
      × (p.priority ≡ o.priority)
      × (p.role ≡ Role.infrastructure)

  read_back : ReadsAs (read_profile trim_space path current filename)
  unfolding read_profile infrastructure_settings
  read_back = (
    text_answered "id" (shown_id o) _ (kept.written "connection" "id" _ (ground arith) refl refl),
    text_answered "uuid" uuid _ (kept.written "connection" "uuid" _ (ground arith) refl refl),
    text_answered "interface-name" o.interface _
        (kept.written "connection" "interface-name" _ (ground arith) refl refl),
    bytes_answered "ssid" o.ssid _
        (kept.written "802-11-wireless" "ssid" _ (ground arith) refl refl),
    int32_answered "autoconnect-priority" o.priority _
        (kept.written "connection" "autoconnect-priority" _ (ground arith) refl refl),
    ap (λ (v : Option String). role_of (value_of v)) (kept.marked "onboardd.role")
        ∙ built_role o uuid,
  )

  pub secured_again : is_secured current ≡ not o.is_open
  unfolding infrastructure_settings
  secured_again = kept.secured ∙ ground arith

  hidden_again : variant_bool_default (get current "802-11-wireless" "hidden") false ≡ o.hidden
  unfolding infrastructure_settings
  hidden_again =
      hidden_answered o.hidden _
        (kept.written "802-11-wireless" "hidden" (flag o.hidden) (ground arith) refl refl)

  secret_again : o.is_open ≡ false → o.password ≢ "" → profile_psk current secrets ≡ ok o.password
  unfolding profile_psk infrastructure_settings
  secret_again secured given =
      let e : get secrets "802-11-wireless-security" "psk" ≡ some (text o.password) =
        kept.secret ∙ ground arith in
      rw e (ground (arith, eq_iff o.password ""))

  -- The options that the settings are built from again.
  abbrev again : Bool → InfrastructureOptions
  again enabled = record o { id = shown_id o; uuid = uuid; autoconnect = enabled; pending = false }

  check_again :
      (built : Settings) (enabled : Bool)
      → build_infrastructure_settings std o ≡ ok (built, uuid)
      → check_infrastructure std (again enabled) ≡ none
  unfolding build_infrastructure_settings check_infrastructure
  check_again built enabled h = ground arith

  open_password :
      (built : Settings)
      → build_infrastructure_settings std o ≡ ok (built, uuid)
      → (if is_secured current then profile_psk current secrets else ok "") ≡ ok o.password
  unfolding build_infrastructure_settings check_infrastructure
  open_password built h = elim (Bool-cases o.is_open) [
    | inl unsecured ↦ rw (secured_again, unsecured) (ground (arith, eq_iff o.password ""))
    | inr secured ↦
        rw (secured_again, secured)
          (secret_again secured (nonempty_psk std o.password (ground arith)))
  ]

  id_again :
      (enabled : Bool)
      → infrastructure_settings (again enabled) uuid
        ≡ infrastructure_settings (record o { autoconnect = enabled; pending = false }) uuid
  unfolding infrastructure_settings
  id_again enabled = rw (name_again o.id o.ssid) refl

  options_again :
      (p : Profile) (enabled : Bool)
      → ReadsAs p
      → infrastructure_again p o.password
          (is_secured current)
          (variant_bool_default (get current "802-11-wireless" "hidden") false)
          enabled
        ≡ again enabled
  options_again p enabled (id, u, interface, ssid, priority, role) =
      ground (arith, id, u, interface, ssid, priority, secured_again, hidden_again)

  build_again :
      (built : Settings) (enabled : Bool)
      → build_infrastructure_settings std o ≡ ok (built, uuid)
      → resolve_uuid std uuid ≡ ok uuid
      → settings_only (build_infrastructure_settings std (again enabled))
        ≡ ok (infrastructure_settings (record o { autoconnect = enabled; pending = false }) uuid)
  build_again built enabled h canonical =
      ap settings_only
        (build_given std (again enabled) uuid (check_again built enabled h) canonical)
      ∙ ap ok (id_again enabled)

  has_wireless : has_section current "802-11-wireless" ≡ true
  unfolding infrastructure_settings
  has_wireless =
      section_answered current "802-11-wireless" "ssid" o.ssid
        (kept.written "802-11-wireless" "ssid" (bytes o.ssid) (ground arith) refl refl)

  rebuild_again :
      (print_cidr : String → ℕ → String) (p : Profile) (built : Settings) (enabled : Bool)
      → ReadsAs p
      → build_infrastructure_settings std o ≡ ok (built, uuid)
      → resolve_uuid std uuid ≡ ok uuid
      → rebuild_owned_settings std print_cidr p current secrets enabled
        ≡ ok (infrastructure_settings (record o { autoconnect = enabled; pending = false }) uuid)
  unfolding rebuild_owned_settings
  rebuild_again print_cidr p built enabled r h canonical =
      let found : rebuild_owned_settings std print_cidr p current secrets enabled
          ≡ rebuild_role std print_cidr p.role p current secrets enabled =
        ground (arith, has_wireless) in
      found
      ∙ ap (λ (role : Role). rebuild_role std print_cidr role p current secrets enabled) r.5
      ∙ ap (λ (x : Result String). rebuild_infrastructure std p current x enabled)
          (open_password built h)
      ∙ ap (λ (x : InfrastructureOptions). settings_only (build_infrastructure_settings std x))
          (options_again p enabled r)
      ∙ build_again built enabled h canonical

  pub sent_again :
      (print_cidr : String → ℕ → String) (built : Settings) (enabled : Bool)
      → build_infrastructure_settings std o ≡ ok (built, uuid)
      → resolve_uuid std uuid ≡ ok uuid
      → with_secrets std print_cidr
          (read_profile trim_space path current filename)
          enabled
          none
          current
          (ok secrets)
        ≡ (
          some (
            infrastructure_settings (record o { autoconnect = enabled; pending = false }) uuid,
            profile_in_memory trim_space filename,
          ),
          none,
        )
  unfolding read_profile
  sent_again print_cidr built enabled h canonical =
      let p = read_profile trim_space path current filename in
      ap (send_rebuilt p none) (rebuild_again print_cidr p built enabled read_back h canonical)
