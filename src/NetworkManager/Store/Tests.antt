-- ===== src/NetworkManager/Store/Tests.antt =====
-- Tests of the store of profiles of internal/networkmanager.
use onboardd.Prelude.{
  ℕ, String, true, false, none, List, [], ◌∷◌, All, string_eq, eq_iff, ◌≡◌, ◌≢◌, ◌⊎◌, arith,
}
use onboardd.Prelude.Int.{pos}
use onboardd.GoError.{new, ok, err, Result}
use onboardd.NetworkManager.Types.{Role, Profile}
use onboardd.NetworkManager.Settings.{Std}
use onboardd.NetworkManager.Autoconnect.{Answer, done, gone}
use onboardd.NetworkManager.Store.{
  delete_owned_profile, delete_owned_infrastructure_profile, delete_pending_infrastructure_profiles,
  add_and_activate,
}
use onboardd.NetworkManager.Store.Laws.{
  Pending, InactiveBy, remains, deletions-Ours, add_and_activate-remains,
}
use onboardd.Recovery.Fixtures.{active}

abbrev fixed : Std
fixed = record {
  is_hex = λ text. true;
  replace_all = λ text old new. text;
  to_lower = λ text. text;
  random_uuid = ok "7d3a0b9e-1c2d-4e5f-8a6b-0c1d2e3f4a5b";
  parse_cidr = λ cidr. none;
}

abbrev home : String
home = "7d3a0b9e-1c2d-4e5f-8a6b-0c1d2e3f4a5b"

abbrev saved : Profile
saved = record {
  path = "/settings/1";
  id = "home";
  uuid = home;
  type_name = "802-11-wireless";
  interface = "wlan0";
  ssid = "home";
  mode = "infrastructure";
  autoconnect = false;
  priority = pos 0;
  owned = true;
  role = Role.infrastructure;
  pending = true;
  in_memory = false;
}

abbrev agrees : Profile → Answer
agrees p = done

abbrev listed : Result (List Profile)
listed = ok (saved ∷ [])

abbrev wlan0 : String
wlan0 = "wlan0"

deletions-Ours_example :
    All
      (λ (p : Profile). (p.owned ≡ true) × (p.uuid ≡ home))
      (delete_owned_profile fixed agrees home listed).0
    × All
        (InactiveBy agrees wlan0 home (ok (active "setup")))
        (delete_owned_infrastructure_profile fixed agrees wlan0 home (ok (active "setup")) listed).0
    × All (Pending wlan0) (delete_pending_infrastructure_profiles agrees wlan0 listed).0
deletions-Ours_example = deletions-Ours agrees fixed wlan0 home (ok (active "setup")) listed

abbrev one_minute : ℕ
one_minute = 60000000000

named : home ≢ ""
named = ground (arith, eq_iff home "")

add_and_activate-remains_example :
    let (a, e, calls) = add_and_activate home (ok "/device/1") none (err (new "refused")) gone in
    (remains false calls ≡ true → a.uuid ≡ home)
    × (a.uuid ≢ "" → (remains false calls ≡ true) ⊎ (Answer.gone ≡ gone))
    × ((e ≢ none) ⊎ (remains false calls ≡ true))
add_and_activate-remains_example =
    add_and_activate-remains home (ok "/device/1") none (err (new "refused")) gone named
