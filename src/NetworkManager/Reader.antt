-- ===== src/NetworkManager/Reader.antt =====
-- The profile reader of internal/networkmanager/objects.go, and the variant readers of
-- properties.go. A missing key gives the zero variant, which holds no value.
use onboardd.Prelude.{
  String, Bool, true, ◌||◌, Option, none, some, List, [], ◌∷◌, ◌==◌, string_eq, starts_with,
  if◌then◌else◌,
}
use onboardd.Prelude.Int.{ℤ, pos}
use onboardd.NetworkManager.Types.{Role, Profile}
use onboardd.NetworkManager.Settings.{Variant, text, flag, int32, bytes, strings, Settings}

-- `map[key]`
abbrev pub lookup {ℓ} : {A : Type ℓ} → String → List (String × A) → Option A
lookup key [] = none
lookup key ((k, a) ∷ rest) = if k == key then some a else lookup key rest

-- `settings[section][key]`: the map of a missing section has no keys.
abbrev pub get : Settings → String → String → Option Variant
get settings section key = elim (lookup section settings) [ none ↦ none | some s ↦ lookup key s ]

abbrev pub variant_string : Option Variant → String
variant_string (some (text value)) = value
variant_string _ = ""

abbrev pub variant_int32 : Option Variant → ℤ
variant_int32 (some (int32 value)) = value
variant_int32 _ = pos 0

abbrev pub variant_bool_default : Option Variant → Bool → Bool
variant_bool_default (some (flag value)) fallback = value
variant_bool_default _ fallback = fallback

abbrev pub variant_bytes : Option Variant → String
variant_bytes (some (bytes value)) = value
variant_bytes _ = ""

abbrev pub variant_map_string_string : Option Variant → List (String × String)
variant_map_string_string (some (strings entries)) = entries
variant_map_string_string _ = []

abbrev pub value_of : Option String → String
value_of none = ""
value_of (some value) = value

-- A role is a text; one that the program does not know is read as no role.
abbrev pub role_of : String → Role
role_of value =
    if value == "infrastructure"
    then Role.infrastructure
    else if value == "provisioning"
    then Role.provisioning
    else if value == "standalone"
    then Role.standalone
    else Role.unset

-- `trim_space` is `strings.TrimSpace`.
unfoldable pub profile_in_memory : (String → String) → String → Bool
profile_in_memory trim_space filename =
    let cleaned = trim_space filename in
    cleaned == "" || starts_with cleaned "/run/" || starts_with cleaned "/var/run/"

-- `profile`, once its two reads have succeeded.
unfoldable pub read_profile : (String → String) → String → Settings → String → Profile
unfolding profile_in_memory
read_profile trim_space path settings filename =
    let marks = variant_map_string_string (get settings "user" "data") in
    record {
      path = path;
      id = variant_string (get settings "connection" "id");
      uuid = variant_string (get settings "connection" "uuid");
      type_name = variant_string (get settings "connection" "type");
      interface = variant_string (get settings "connection" "interface-name");
      ssid = variant_bytes (get settings "802-11-wireless" "ssid");
      mode = variant_string (get settings "802-11-wireless" "mode");
      autoconnect = variant_bool_default (get settings "connection" "autoconnect") true;
      priority = variant_int32 (get settings "connection" "autoconnect-priority");
      owned = value_of (lookup "onboardd.owner" marks) == "onboardd";
      role = role_of (value_of (lookup "onboardd.role" marks));
      pending = value_of (lookup "onboardd.pending" marks) == "true";
      in_memory = profile_in_memory trim_space filename;
    }
