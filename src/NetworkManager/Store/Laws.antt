-- ===== src/NetworkManager/Store/Laws.antt =====
-- What the deletions, checkpoints and additions of internal/networkmanager guarantee.
use onboardd.Prelude.{
  ℕ, ◌*◌, ◌^◌, ◌<◌, String, Bool, true, false, not, if_intro, Option, none, some, List, [], ◌∷◌,
  All, All-map, ◌==◌, ℕ_eq, string_eq, eq_iff, ◌≡◌, ◌≢◌, ◌⊎◌, ◌↔◌, arith,
}
use onboardd.Prelude.Int.{ℤ, pos, negsuc}
use onboardd.GoError.{Error, Result, ok, err}
use onboardd.NetworkManager.Types.{Role, role_eq, role_beq_iff, Status, Profile}
use onboardd.NetworkManager.Settings.{Std, valid_uuid}
use onboardd.NetworkManager.Autoconnect.{Answer, done, gone, failed}
use onboardd.NetworkManager.Store.{
  Deletions, find_owned, delete_owned_profile, is_ours, find_infrastructure, delete_inactive,
  delete_owned_infrastructure_profile, pending_profiles, delete_each,
  delete_pending_infrastructure_profiles, checkpoint_seconds, Added, added, deleted,
  add_and_activate,
}

-- What a profile of an interrupted transition looks like.
abbrev pub Pending : String → Profile → Type 0
Pending interface p =
    (p.owned ≡ true)
    × (p.pending ≡ true)
    × (p.interface ≡ interface)
    × (p.role ≡ Role.infrastructure)

module _ (answer : Profile → Answer) where
  find_owned-All :
      (uuid : String) (ps : List Profile)
      → All (λ (p : Profile). (p.owned ≡ true) × (p.uuid ≡ uuid)) (find_owned answer uuid ps).0
  unfolding find_owned
  find_owned-All uuid [] = tt
  find_owned-All uuid (p ∷ ps) = ground (arith, eq_iff p.uuid uuid, find_owned-All uuid ps)

  find_infrastructure-All :
      (interface uuid : String) (ps : List Profile)
      → All
          (λ (p : Profile). (is_ours interface p ≡ true) × (p.uuid ≡ uuid))
          (find_infrastructure answer interface uuid ps).0
  unfolding find_infrastructure
  find_infrastructure-All interface uuid [] = tt
  find_infrastructure-All interface uuid (p ∷ ps) =
      ground (arith, eq_iff p.uuid uuid, find_infrastructure-All interface uuid ps)

  pending_profiles-All :
      (interface : String) (ps : List Profile)
      → All (Pending interface) (pending_profiles interface ps)
  unfolding pending_profiles
  pending_profiles-All interface [] = tt
  pending_profiles-All interface (p ∷ ps) = ground (
    arith,
    eq_iff p.interface interface,
    role_beq_iff p.role Role.infrastructure,
    pending_profiles-All interface ps,
  )

  delete_each-All :
      (interface : String) (ps : List Profile)
      → All (Pending interface) ps
      → All (Pending interface) (delete_each answer ps).0
  unfolding delete_each
  delete_each-All interface [] h = tt
  delete_each-All interface (p ∷ ps) (h, hs) = ground (arith, delete_each-All interface ps hs)

  -- No deletion from the list of known networks is asked for of the active profile.
  abbrev pub Inactive : String → String → Status → Profile → Type 0
  Inactive interface uuid s p =
      ((is_ours interface p ≡ true) × (p.uuid ≡ uuid)) × (p.uuid ≢ s.device.active_uuid)

  find_infrastructure-Inactive :
      (interface uuid : String) (s : Status) (ps : List Profile)
      → (s.device.active_uuid == uuid) ≡ false
      → All (Inactive interface uuid s) (find_infrastructure answer interface uuid ps).0
  find_infrastructure-Inactive interface uuid s ps other =
      All-map (λ (p : Profile). (is_ours interface p ≡ true) × (p.uuid ≡ uuid))
        (Inactive interface uuid s) (find_infrastructure answer interface uuid ps).0
        (λ p h. (h, λ e. ground (arith, eq_iff s.device.active_uuid uuid, h, e)))
        (find_infrastructure-All interface uuid ps)

  delete_inactive-Inactive :
      (interface uuid : String) (s : Status) (listed : Result (List Profile))
      → All (Inactive interface uuid s) (delete_inactive answer interface uuid listed s).0
  delete_inactive-Inactive interface uuid s (err e) = ground arith
  delete_inactive-Inactive interface uuid s (ok ps) =
      if_intro (λ (x : Deletions). All (Inactive interface uuid s) x.0)
        (s.device.active_uuid == uuid) (λ _. tt)
        (λ other. find_infrastructure-Inactive interface uuid s ps other)

  delete_owned_profile-All :
      (std : Std) (uuid : String) (listed : Result (List Profile))
      → All
          (λ (p : Profile). (p.owned ≡ true) × (p.uuid ≡ std.to_lower uuid))
          (delete_owned_profile std answer uuid listed).0
  unfolding delete_owned_profile
  delete_owned_profile-All std uuid (err e) = ground arith
  delete_owned_profile-All std uuid (ok ps) =
      if_intro
        (λ (x : Deletions).
          All (λ (p : Profile). (p.owned ≡ true) × (p.uuid ≡ std.to_lower uuid)) x.0)
        (not (valid_uuid std uuid)) (λ _. tt) (λ _. find_owned-All (std.to_lower uuid) ps)

  -- The same for an answered status; without one nothing is asked for.
  abbrev pub InactiveBy : String → String → Result Status → Profile → Type 0
  InactiveBy interface uuid (ok s) p = Inactive interface uuid s p
  InactiveBy interface uuid (err e) p = ⊥

  delete_owned_infrastructure_profile-All :
      (std : Std) (interface uuid : String) (status : Result Status)
      (listed : Result (List Profile))
      → All
          (InactiveBy interface (std.to_lower uuid) status)
          (delete_owned_infrastructure_profile std answer interface uuid status listed).0
  unfolding delete_owned_infrastructure_profile
  delete_owned_infrastructure_profile-All std interface uuid (err e) listed = ground arith
  delete_owned_infrastructure_profile-All std interface uuid (ok s) listed =
      let P = λ (x : Deletions). All (Inactive interface (std.to_lower uuid) s) x.0 in
      if_intro P (interface == "") (λ _. tt)
        (λ _.
          if_intro P (not (valid_uuid std uuid)) (λ _. tt)
            (λ _. delete_inactive-Inactive interface (std.to_lower uuid) s listed))

  delete_pending_infrastructure_profiles-All :
      (interface : String) (listed : Result (List Profile))
      → All (Pending interface) (delete_pending_infrastructure_profiles answer interface listed).0
  unfolding delete_pending_infrastructure_profiles
  delete_pending_infrastructure_profiles-All interface (err e) = ground arith
  delete_pending_infrastructure_profiles-All interface (ok ps) =
      if_intro (λ (x : Deletions). All (Pending interface) x.0) (interface == "") (λ _. tt)
        (λ _.
          delete_each-All interface (pending_profiles interface ps)
            (pending_profiles-All interface ps))

  -- The profiles that each of the three deletions asks NetworkManager to delete. By UUID: profiles
  -- of that UUID that onboardd owns. From the list of known networks: profiles of that UUID that are
  -- owned infrastructure profiles bound to the interface, and not the active one by the status that
  -- is read; none, if no status can be read. After an interrupted transition: owned infrastructure
  -- profiles on the interface that are marked as on trial. These deletions ask for no other profile.
  pub deletions-Ours :
      (std : Std) (interface uuid : String) (status : Result Status)
      (listed : Result (List Profile))
      → All
          (λ (p : Profile). (p.owned ≡ true) × (p.uuid ≡ std.to_lower uuid))
          (delete_owned_profile std answer uuid listed).0
        × All
            (InactiveBy interface (std.to_lower uuid) status)
            (delete_owned_infrastructure_profile std answer interface uuid status listed).0
        × All (Pending interface) (delete_pending_infrastructure_profiles answer interface listed).0
  deletions-Ours std interface uuid status listed = (
    delete_owned_profile-All std uuid listed,
    delete_owned_infrastructure_profile-All std interface uuid status listed,
    delete_pending_infrastructure_profiles-All interface listed,
  )

-- A checkpoint is asked for with `n` seconds exactly if the rollback time is `n` seconds in
-- nanoseconds, more than none, and `n` fits the 32 bits of its argument.
checkpoint_seconds_iff :
    (d : ℤ) (n : ℕ)
    → (checkpoint_seconds d ≡ ok n) ↔ ((d ≡ pos (n * 10 ^ 9)) × (0 < n) × (n < 2 ^ 32))
unfolding checkpoint_seconds
checkpoint_seconds_iff (negsuc m) n = ground arith
checkpoint_seconds_iff (pos m) n = ground arith

-- Whether the profile that was added is there after the calls, so far as their answers say, given
-- whether it was before: a deletion that fails leaves it, unless it fails since the profile is gone.
abbrev pub remains : Bool → List Added → Bool
remains there [] = there
remains there (added none ∷ calls) = remains true calls
remains there (deleted done ∷ calls) = remains false calls
remains there (deleted gone ∷ calls) = remains false calls
remains there (call ∷ calls) = remains there calls

-- A profile with a UUID is added and activated. If the profile is there afterwards, so far as the
-- answers of NetworkManager say, its UUID is answered. If the UUID is answered, the profile is there,
-- or its deletion failed since it was gone already. If there is no error, it is there.
pub add_and_activate-remains :
    (uuid : String) (device : Result String) (add : Option Error) (activate : Result String)
    (delete : Answer)
    → uuid ≢ ""
    → let (a, e, calls) = add_and_activate uuid device add activate delete in
      (remains false calls ≡ true → a.uuid ≡ uuid)
      × (a.uuid ≢ "" → (remains false calls ≡ true) ⊎ (delete ≡ gone))
      × ((e ≢ none) ⊎ (remains false calls ≡ true))
unfolding add_and_activate
add_and_activate-remains uuid (err e) add activate delete named = ground arith
add_and_activate-remains uuid (ok device) (some e) activate delete named = ground arith
add_and_activate-remains uuid (ok device) none (err e) done named = ground arith
add_and_activate-remains uuid (ok device) none (err e) gone named = ground arith
add_and_activate-remains uuid (ok device) none (err e) (failed f) named = ground arith
add_and_activate-remains uuid (ok device) none (ok path) delete named = ground arith
