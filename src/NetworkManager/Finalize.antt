-- ===== src/NetworkManager/Finalize.antt =====
-- `FinalizeTransition`, `deleteSupersededProfiles` and `supersededProfiles` of
-- internal/networkmanager/transitions.go.
pub mod Laws
mod Tests
use onboardd.Prelude.{
  String, Bool, true, false, not, ◌&&◌, Option, none, some, List, [], ◌∷◌, ◌==◌, ◌!=◌, string_eq,
  if◌then◌else◌,
}
use onboardd.GoError.{Error, new, wrap, Result, ok, err}
use onboardd.NetworkManager.Types.{
  Role, unset, infrastructure, provisioning, standalone, Profile, role_eq,
}
use onboardd.NetworkManager.Autoconnect.{Update, Answer, done, gone, failed, select_mode}

-- profileScope
pub record Scope : Type 0 where
  pub interface_name : String
  pub role : Role
  pub ssid : String

unfoldable pub matches : Scope → Profile → Bool
matches scope p =
    if p.interface != scope.interface_name
    then false
    else if p.role != scope.role
    then false
    else if scope.role == infrastructure
    then p.ssid == scope.ssid
    else true

unfoldable pub superseded_profiles : List Profile → Scope → String → List Profile
superseded_profiles [] scope keep = []
superseded_profiles (p ∷ ps) scope keep =
    let rest = superseded_profiles ps scope keep in
    if p.owned && p.uuid != keep && matches scope p then p ∷ rest else rest

-- The loop of deletions: the profiles that were deleted, in order, and the error.
unfoldable pub delete_loop : (Profile → Answer) → List Profile → List Profile × Option Error
delete_loop answer [] = ([], none)
delete_loop answer (p ∷ ps) =
    let (deleted, error) = delete_loop answer ps in
    elim (answer p) [
      | done ↦ (p ∷ deleted, error)
      | gone ↦ (deleted, error)
      | failed e ↦ ([], some (wrap "delete superseded profile" e))
    ]

unfoldable pub delete_superseded_profiles :
    Result (List Profile) → (Profile → Answer) → Scope → String → List Profile × Option Error
unfolding delete_loop superseded_profiles
delete_superseded_profiles (err e) answer scope keep = ([], some e)
delete_superseded_profiles (ok ps) answer scope keep =
    delete_loop answer (superseded_profiles ps scope keep)

-- What a call has done, and its result.
pub record Finalized : Type 0 where
  pub updates : List Update
  pub deleted : List Profile
  pub error : Option Error

abbrev pub wrap_superseded : Option Error → Option Error
wrap_superseded none = none
wrap_superseded (some e) = some (wrap "remove superseded profiles" e)

abbrev pub scope_of : String → Role → String → Scope
scope_of interface_name role ssid = record {
  interface_name = interface_name;
  role = role;
  ssid = if role == infrastructure then ssid else "";
}

-- `listed` and `relisted` are the profiles that D-Bus lists before the updates of the autoconnect
-- flags and before the deletions.
module _ (listed relisted : Result (List Profile)) (update_answer : Update → Answer)
    (delete_answer : Profile → Answer) where
  abbrev pub finish : List Update → Scope → String → Finalized
  finish updates scope keep =
      let (deleted, error) = delete_superseded_profiles relisted delete_answer scope keep in
      record { updates = updates; deleted = deleted; error = wrap_superseded error }

  abbrev pub after_select : List Update × Option Error → Scope → String → Finalized
  after_select (updates, some e) scope keep = record {
    updates = updates;
    deleted = [];
    error = some e;
  }
  after_select (updates, none) scope keep = finish updates scope keep

  unfoldable pub finalize_transition : String → Role → String → String → Finalized
  finalize_transition interface_name unset ssid keep = record {
    updates = [];
    deleted = [];
    error = some (new "cannot finalize unknown network role");
  }
  finalize_transition interface_name provisioning ssid keep =
      finish [] (scope_of interface_name provisioning ssid) keep
  finalize_transition interface_name infrastructure ssid keep =
      after_select (select_mode listed update_answer interface_name infrastructure)
        (scope_of interface_name infrastructure ssid) keep
  finalize_transition interface_name standalone ssid keep =
      after_select (select_mode listed update_answer interface_name standalone)
        (scope_of interface_name standalone ssid) keep
