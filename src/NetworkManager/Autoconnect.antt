-- ===== src/NetworkManager/Autoconnect.antt =====
-- `autoconnectUpdates` and `selectMode` of internal/networkmanager/transitions.go: which profiles
-- change their autoconnect flag when a mode is selected, in which order, and where a failure stops.
pub mod Laws
pub mod Order
pub mod Selected
mod Tests
use onboardd.Prelude.{
  bool_ne, String, Bool, true, false, not, ◌&&◌, ◌||◌, Option, none, some, List, [], ◌∷◌, ◌==◌,
  ◌!=◌, string_eq, if◌then◌else◌,
}
use onboardd.Prelude.Sort.{slice_stable}
use onboardd.GoError.{Error, Result, ok, err}
use onboardd.NetworkManager.Types.{Role, infrastructure, standalone, Profile, role_eq}

pub record Update : Type 0 where
  pub profile : Profile
  pub enabled : Bool

-- The two `continue` tests of the loop.
unfoldable pub is_production : String → Profile → Bool
is_production interface p =
    p.owned && p.interface == interface && (p.role == infrastructure || p.role == standalone)

unfoldable pub collect_updates : List Profile → String → Role → List Update
collect_updates [] interface selected = []
collect_updates (p ∷ ps) interface selected =
    let rest = collect_updates ps interface selected in
    let enabled = p.role == selected in
    if is_production interface p && bool_ne p.autoconnect enabled
    then record { profile = p; enabled = enabled } ∷ rest
    else rest

abbrev pub enabled_first : Update → Update → Bool
enabled_first left right = left.enabled && not right.enabled

unfoldable pub autoconnect_updates : List Profile → String → Role → List Update
unfolding collect_updates slice_stable
autoconnect_updates ps interface selected =
    slice_stable enabled_first (collect_updates ps interface selected)

-- What D-Bus answers to `updateAutoconnect`; `gone` is an error of which `isObjectGone` is true.
pub data Answer : Type 0 where
  done gone : Answer
  failed : Error → Answer

-- The loop of `selectMode`: the updates that were made, in order, and the error.
unfoldable pub select_loop : (Update → Answer) → List Update → List Update × Option Error
select_loop answer [] = ([], none)
select_loop answer (u ∷ us) =
    let (made, error) = select_loop answer us in
    elim (answer u) [ done ↦ (u ∷ made, error) | gone ↦ (made, error) | failed e ↦ ([], some e) ]

-- `listed` is the answer of `Profiles`.
unfoldable pub select_mode :
    Result (List Profile) → (Update → Answer) → String → Role → List Update × Option Error
unfolding autoconnect_updates select_loop
select_mode (err e) answer interface selected = ([], some e)
select_mode (ok ps) answer interface selected =
    select_loop answer (autoconnect_updates ps interface selected)

-- A made update writes the profile that its path names, and no other: `rebuildOwnedSettings` sets
-- the flag, drops the mark of a profile on trial, and keeps what was read of the rest.
abbrev pub write : Update → Profile → Profile
write u p =
    if p.path == u.profile.path then record p { autoconnect = u.enabled; pending = false } else p

abbrev pub write_all : List Update → Profile → Profile
write_all [] p = p
write_all (u ∷ us) p = write_all us (write u p)
