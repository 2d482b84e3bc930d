-- ===== src/AppConfig/Resolve.antt =====
-- `Resolve` and `decodeInto` of internal/appconfig/config.go. The opening of the file and the TOML
-- decoder are answers.
pub mod Laws
mod Tests
use onboardd.Prelude.{
  String, Bool, true, false, not, ◌&&◌, Option, none, some, List, [], ◌∷◌, ◌==◌, string_eq,
  if◌then◌else◌,
}
use onboardd.GoError.{Error, new, wrap, Result, ok, err}
use onboardd.AppConfig.Types.{Config, Overrides, defaults, apply_overrides}
use onboardd.AppConfig.Validate.{Texts, validate}

-- What the TOML decoder makes of a configuration: the keys that it set, whether `schema_version` is
-- among them, and the keys that it does not know.
pub record Decoded : Type 0 where
  pub config : Config
  pub has_schema_version : Bool
  pub undecoded : List String

-- `os.Open`: a file with its decoder, none, or another error.
pub data Opened : Type 0 where
  file : (Config → Result Decoded) → Opened
  not_exist : Error → Opened
  failed : Error → Opened

unfoldable pub decode_into : (Config → Result Decoded) → Config → Result Config
decode_into decode resolved = elim (decode resolved) [
  | err e ↦ err (wrap "decode TOML" e)
  | ok d ↦
      if not d.has_schema_version
      then err (new "schema_version is required")
      else elim d.undecoded [
        | [] ↦ ok d.config
        | key ∷ keys ↦ err (new "unknown configuration keys")
      ]
]

unfoldable pub load : String → Bool → Opened → Result Config
unfolding decode_into
load path optional opened = if path == "" then ok defaults else elim opened [
  | file decode ↦ elim (decode_into decode defaults) [
    | err e ↦ err (wrap "load configuration" e)
    | ok c ↦ ok c
  ]
  | not_exist e ↦ if optional then ok defaults else err (wrap "open configuration" e)
  | failed e ↦ err (wrap "open configuration" e)
]

unfoldable pub resolve : Texts → String → Bool → Opened → Overrides → Result Config
unfolding load
resolve texts path optional opened overrides = elim (load path optional opened) [
  | err e ↦ err e
  | ok c ↦ elim (validate texts (apply_overrides c overrides)) [
    | none ↦ ok (apply_overrides c overrides)
    | some e ↦ err (if path == "" then e else wrap "validate configuration" e)
  ]
]
