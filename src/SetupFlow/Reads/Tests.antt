-- ===== src/SetupFlow/Reads/Tests.antt =====
-- Tests of the reads of internal/setupflow/service.go: a name that two access points announce.
use mathlib.Core.List.Permᴰ
use onboardd.Prelude.{
  ℕ, ◌≤◌, String, true, List, [], ◌∷◌, ◌==◌, string_eq, if◌then◌else◌, refl, ◌≡◌,
}
use onboardd.Prelude.Sort.{insert_stable, slice_stable}
use onboardd.GoError.{ok}
use onboardd.SetupFlow.Types.{Network}
use onboardd.SetupFlow.Reads.{Capabilities, keep_strongest, strongest, networks}
use onboardd.SetupFlow.Reads.Laws.{best, times, Descending, networks-Strongest}

abbrev at_strength : String → ℕ → Network
at_strength ssid strength = record { ssid = ssid; security = "protected"; strength = strength }

abbrev home : String
home = "home"

abbrev found : List Network
found =
    at_strength "home" 40 ∷ at_strength "cafe" 60 ∷ at_strength "" 90 ∷ at_strength "home" 70 ∷ []

abbrev shown : List Network
shown = at_strength "home" 70 ∷ at_strength "cafe" 60 ∷ []

abbrev both : Capabilities
both = record { network = true; standalone = true }

abbrev in_order : List Network → List Network
in_order ns = ns

shows_home_first : networks both in_order (ok found) ≡ ok shown
unfolding networks strongest keep_strongest slice_stable insert_stable
shows_home_first = refl

networks-Strongest_example :
    Descending shown
    × (times home "protected" shown ≤ 1)
    × (best home "protected" shown ≡ (if home == "" then 0 else best home "protected" found))
networks-Strongest_example =
    networks-Strongest both in_order found shown home "protected" (λ ns. Permᴰ.refl ns)
      shows_home_first
