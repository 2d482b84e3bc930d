-- ===== src/NetworkManager/Autoconnect/Tests.antt =====
-- Tests of `selectMode` of internal/networkmanager/transitions.go: standalone mode is selected
-- while infrastructure mode is.
use mathlib.Core.List.{Memᴰ}
use onboardd.Prelude.Int.{pos}
use onboardd.Prelude.{
  String, Bool, true, false, none, List, [], ◌∷◌, string_eq, eq_iff, refl, ◌≡◌, arith,
}
use onboardd.GoError.{new, ok}
use onboardd.Prelude.Sort.{slice_stable, insert_stable}
use onboardd.NetworkManager.Types.{Role, infrastructure, standalone, Profile}
use onboardd.NetworkManager.Autoconnect.{
  Update, is_production, collect_updates, autoconnect_updates, Answer, done, failed, select_loop,
  select_mode, write_all,
}
use onboardd.NetworkManager.Autoconnect.Laws.{DistinctPaths}
use onboardd.NetworkManager.Autoconnect.Selected.{target, select_mode-target}
use onboardd.NetworkManager.Autoconnect.Order.{StillStarts, Exists, select_mode-StillStarts}

abbrev profile : String → Role → Bool → Profile
profile path role autoconnect = record {
  path = path;
  id = path;
  uuid = path;
  type_name = "802-11-wireless";
  interface = "wlan0";
  ssid = "net";
  mode = "";
  autoconnect = autoconnect;
  owned = true;
  role = role;
  pending = false;
  priority = pos 0;
  in_memory = false;
}

abbrev home : Profile
home = profile "/1" infrastructure true

abbrev hotspot : Profile
hotspot = profile "/2" standalone false

abbrev listed : List Profile
listed = home ∷ hotspot ∷ []

enabled_first_example :
    autoconnect_updates listed "wlan0" standalone
    ≡ record { profile = hotspot; enabled = true } ∷ record { profile = home; enabled = false } ∷ []
unfolding autoconnect_updates collect_updates is_production slice_stable insert_stable
enabled_first_example = refl

listed-DistinctPaths : DistinctPaths listed
listed-DistinctPaths = (((λ e. ground (arith, eq_iff home.path hotspot.path)), tt), (tt, tt))

abbrev agrees : Update → Answer
agrees u = done

succeeds : (select_mode (ok listed) agrees "wlan0" standalone).1 ≡ none
unfolding select_mode select_loop autoconnect_updates collect_updates is_production slice_stable
    insert_stable
succeeds = refl

home-Exists : (u : Update) → Exists agrees home u
home-Exists u = ground arith

select_mode-target_example :
    write_all (select_mode (ok listed) agrees "wlan0" standalone).0 home
    ≡ target "wlan0" standalone home
select_mode-target_example =
    select_mode-target listed agrees "wlan0" standalone home listed-DistinctPaths (Memᴰ.head refl)
      home-Exists succeeds

-- The second update fails.
abbrev fails_to_disable : Update → Answer
fails_to_disable u = elim u.enabled [ true ↦ done | false ↦ failed (new "D-Bus") ]

hotspot-Exists : (u : Update) → Exists fails_to_disable hotspot u
hotspot-Exists u = ground arith

hotspot-is_production : is_production "wlan0" hotspot ≡ true
unfolding is_production
hotspot-is_production = refl

select_mode-StillStarts_example :
    StillStarts hotspot (select_mode (ok listed) fails_to_disable "wlan0" standalone).0
select_mode-StillStarts_example =
    select_mode-StillStarts listed fails_to_disable "wlan0" standalone hotspot listed-DistinctPaths
      (Memᴰ.tail (Memᴰ.head refl)) hotspot-is_production refl hotspot-Exists
