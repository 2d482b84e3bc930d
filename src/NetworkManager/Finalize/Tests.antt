-- ===== src/NetworkManager/Finalize/Tests.antt =====
-- Tests of `FinalizeTransition` of internal/networkmanager/transitions.go: a network is joined
-- anew, and its old profile is superseded.
use onboardd.Prelude.Int.{pos}
use onboardd.Prelude.{String, true, false, List, [], ◌∷◌, All, none, refl, ◌≡◌}
use onboardd.GoError.{ok}
use onboardd.Prelude.Sort.{slice_stable}
use onboardd.NetworkManager.Types.{infrastructure, Profile}
use onboardd.NetworkManager.Autoconnect.{
  Update, Answer, done, is_production, collect_updates, autoconnect_updates, select_loop,
  select_mode,
}
use onboardd.NetworkManager.Finalize.{
  matches, superseded_profiles, delete_loop, delete_superseded_profiles, finalize_transition,
}
use onboardd.NetworkManager.Finalize.Laws.{Superseded, finalize-Superseded}

abbrev profile : String → String → Profile
profile uuid ssid = record {
  path = uuid;
  id = uuid;
  uuid = uuid;
  type_name = "802-11-wireless";
  interface = "wlan0";
  ssid = ssid;
  mode = "";
  autoconnect = true;
  owned = true;
  role = infrastructure;
  pending = false;
  priority = pos 0;
  in_memory = false;
}

abbrev profiles : List Profile
profiles = profile "old" "home" ∷ profile "work" "office" ∷ profile "new" "home" ∷ []

abbrev updated : Update → Answer
updated u = done

abbrev deleted : Profile → Answer
deleted p = done

old_is_deleted :
    (finalize_transition
      (ok profiles)
      (ok profiles)
      updated
      deleted
      "wlan0"
      infrastructure
      "home"
      "new").deleted
    ≡ profile "old" "home" ∷ []
unfolding finalize_transition select_mode autoconnect_updates collect_updates is_production
    slice_stable select_loop delete_superseded_profiles delete_loop superseded_profiles matches
old_is_deleted = refl

no_error :
    (finalize_transition
      (ok profiles)
      (ok profiles)
      updated
      deleted
      "wlan0"
      infrastructure
      "home"
      "new").error
    ≡ none
unfolding finalize_transition select_mode autoconnect_updates collect_updates is_production
    slice_stable select_loop delete_superseded_profiles delete_loop superseded_profiles matches
no_error = refl

finalize-Superseded_example :
    All
      (Superseded "wlan0" infrastructure "home" "new")
      (finalize_transition
        (ok profiles)
        (ok profiles)
        updated
        deleted
        "wlan0"
        infrastructure
        "home"
        "new").deleted
finalize-Superseded_example =
    finalize-Superseded (ok profiles) (ok profiles) updated deleted "wlan0" infrastructure "home"
      "new"
