-- ===== src/NetworkManager/Finalize/Laws.antt =====
-- Which profiles a finished transition deletes, and when.
use mathlib.Core.List.{Memᴰ}
use onboardd.Prelude.{
  String, true, if_intro, inl, inr, Option, none, some, List, [], ◌∷◌, All, All-map, string_eq,
  eq_iff, ◌&&◌, ◌!=◌, refl, sym, subst, ◌≡◌, ◌≢◌, ◌⊎◌, arith,
}
use onboardd.GoError.{Error, Result, ok, Result-cases}
use onboardd.NetworkManager.Types.{
  Role, unset, infrastructure, provisioning, standalone, Profile, role_eq, role_beq_iff,
}
use onboardd.NetworkManager.Autoconnect.{Update, Answer, done, gone, select_mode}
use onboardd.NetworkManager.Autoconnect.Laws.{Answer-cases}
use onboardd.NetworkManager.Finalize.{
  matches, superseded_profiles, delete_loop, delete_superseded_profiles, Finalized, scope_of,
  after_select, finalize_transition,
}

-- A profile that may be deleted when `keep` has taken over the role.
pub record Superseded (interface : String) (role : Role) (ssid keep : String) (p : Profile)
    : Type 0 where
  pub owned : p.owned ≡ true
  pub other : p.uuid ≢ keep
  pub same_interface : p.interface ≡ interface
  pub same_role : p.role ≡ role
  pub same_network : (role ≢ infrastructure) ⊎ (p.ssid ≡ ssid)

matches_sound :
    (interface : String) (role : Role) (ssid keep : String) (p : Profile)
    → (p.owned && p.uuid != keep && matches (scope_of interface role ssid) p) ≡ true
    → Superseded interface role ssid keep p
unfolding matches
matches_sound interface role ssid keep p h = ground (
  arith,
  eq_iff p.uuid keep,
  eq_iff p.interface interface,
  role_beq_iff p.role role,
  role_beq_iff role infrastructure,
  eq_iff p.ssid ssid,
)

superseded_profiles-All :
    (interface : String) (role : Role) (ssid keep : String) (ps : List Profile)
    → All
        (Superseded interface role ssid keep)
        (superseded_profiles ps (scope_of interface role ssid) keep)
unfolding superseded_profiles
superseded_profiles-All interface role ssid keep [] = tt
superseded_profiles-All interface role ssid keep (p ∷ ps) =
    if_intro (All (Superseded interface role ssid keep))
      (p.owned && p.uuid != keep && matches (scope_of interface role ssid) p)
      (λ h. (
        matches_sound interface role ssid keep p h,
        superseded_profiles-All interface role ssid keep ps,
      ))
      (λ _. superseded_profiles-All interface role ssid keep ps)

module _ (answer : Profile → Answer) where
  delete_loop-All {κ} :
      (P : Profile → Type κ) (ps : List Profile) → All P ps → All P (delete_loop answer ps).0
  unfolding delete_loop
  delete_loop-All P [] h = tt
  delete_loop-All P (p ∷ ps) (h, hs) = elim (Answer-cases (answer p)) [
    | inl e ↦ rw (e, delete_loop) (h, delete_loop-All P ps hs)
    | inr (inl e) ↦ rw (e, delete_loop) (delete_loop-All P ps hs)
    | inr (inr (x, e)) ↦ rw (e, delete_loop) tt
  ]

  -- What is said of a whole loop: without an error, each profile was deleted or gone.
  abbrev Complete : List Profile → List Profile × Option Error → Type 0
  Complete ps r = r.1 ≡ none → All (λ p. (answer p ≡ gone) ⊎ Memᴰ p r.0) ps

  lift :
      (p : Profile) (ps deleted : List Profile)
      → All (λ q. (answer q ≡ gone) ⊎ Memᴰ q deleted) ps
      → All (λ q. (answer q ≡ gone) ⊎ Memᴰ q (p ∷ deleted)) ps
  lift p ps deleted h =
      All-map (λ q. (answer q ≡ gone) ⊎ Memᴰ q deleted)
        (λ q. (answer q ≡ gone) ⊎ Memᴰ q (p ∷ deleted)) ps
        (λ q. elim [ inl g ↦ inl g | inr m ↦ inr (Memᴰ.tail m) ]) h

  loop_cons :
      (p : Profile) (ps : List Profile)
      → ((answer p ≡ done)
          × (delete_loop answer (p ∷ ps)
              ≡ (p ∷ (delete_loop answer ps).0, (delete_loop answer ps).1)))
        ⊎ ((answer p ≡ gone) × (delete_loop answer (p ∷ ps) ≡ delete_loop answer ps))
        ⊎ ((delete_loop answer (p ∷ ps)).1 ≢ none)
  unfolding delete_loop
  loop_cons p ps = ground arith

  delete_loop-Complete : (ps : List Profile) → Complete ps (delete_loop answer ps)
  delete_loop-Complete [] = λ h. tt
  delete_loop-Complete (p ∷ ps) = elim (loop_cons p ps) [
    | inl (e, q) ↦
        subst (Complete (p ∷ ps)) (sym q)
          (λ h. (inr (Memᴰ.head refl), lift p ps _ (delete_loop-Complete ps h)))
    | inr (inl (e, q)) ↦ subst (Complete (p ∷ ps)) (sym q) (λ h. (inl e, delete_loop-Complete ps h))
    | inr (inr ne) ↦ λ h. absurd (ne h)
  ]

module _ (listed relisted : Result (List Profile)) (update_answer : Update → Answer)
    (delete_answer : Profile → Answer) where
  abbrev call : String → Role → String → String → Finalized
  call = finalize_transition listed relisted update_answer delete_answer

  module _ (interface : String) (role : Role) (ssid keep : String) where
    abbrev deletions : List Profile × Option Error
    deletions =
        delete_superseded_profiles relisted delete_answer (scope_of interface role ssid) keep

    delete-Superseded : All (Superseded interface role ssid keep) deletions.0
    unfolding delete_superseded_profiles
    delete-Superseded = elim (Result-cases relisted) [
      | inl (ps, e) ↦
          rw (e, delete_superseded_profiles)
            (delete_loop-All delete_answer (Superseded interface role ssid keep) _
              (superseded_profiles-All interface role ssid keep ps))
      | inr (e, q) ↦ rw (q, delete_superseded_profiles) tt
    ]

    delete-Complete :
        (ps : List Profile)
        → relisted ≡ ok ps
        → deletions.1 ≡ none
        → All
            (λ p. (delete_answer p ≡ gone) ⊎ Memᴰ p deletions.0)
            (superseded_profiles ps (scope_of interface role ssid) keep)
    unfolding delete_superseded_profiles
    delete-Complete ps l =
        rw (l, delete_superseded_profiles)
          (delete_loop-Complete delete_answer
            (superseded_profiles ps (scope_of interface role ssid) keep))

    abbrev after : List Update × Option Error → Finalized
    after r =
        after_select listed relisted update_answer delete_answer r (scope_of interface role ssid)
          keep

    after-Superseded :
        (r : List Update × Option Error)
        → All (Superseded interface role ssid keep) (after r).deleted
    after-Superseded (updates, none) = delete-Superseded
    after-Superseded (updates, some e) = tt

    after_order :
        (r : List Update × Option Error)
        → ((after r).updates ≡ r.0)
          × ((r.1 ≡ none) ⊎ (((after r).deleted ≡ []) × ((after r).error ≡ r.1)))
    after_order (updates, none) = (refl, inl refl)
    after_order (updates, some e) = (refl, inr (refl, refl))

    after-Complete :
        (r : List Update × Option Error) (ps : List Profile)
        → relisted ≡ ok ps
        → (after r).error ≡ none
        → All
            (λ p. (delete_answer p ≡ gone) ⊎ Memᴰ p (after r).deleted)
            (superseded_profiles ps (scope_of interface role ssid) keep)
    after-Complete (updates, none) ps l h = delete-Complete ps l (ground arith)
    after-Complete (updates, some e) ps l h = cc

  -- Finalizing a transition deletes only owned profiles of the same interface and role (for
  -- infrastructure, of the same network too), and never the new one; whatever D-Bus answers.
  pub finalize-Superseded :
      (interface : String) (role : Role) (ssid keep : String)
      → All (Superseded interface role ssid keep) (call interface role ssid keep).deleted
  unfolding finalize_transition
  finalize-Superseded interface unset ssid keep = tt
  finalize-Superseded interface infrastructure ssid keep =
      after-Superseded interface infrastructure ssid keep
        (select_mode listed update_answer interface infrastructure)
  finalize-Superseded interface provisioning ssid keep =
      delete-Superseded interface provisioning ssid keep
  finalize-Superseded interface standalone ssid keep =
      after-Superseded interface standalone ssid keep
        (select_mode listed update_answer interface standalone)

  -- The intent is recorded first: in an infrastructure or standalone transition the updates made
  -- are those of the mode selection, and if that fails its error is returned and nothing is
  -- deleted.
  pub finalize_order :
      (interface : String) (role : Role) (ssid keep : String)
      → (role ≡ infrastructure) ⊎ (role ≡ standalone)
      → let (updates, error) = select_mode listed update_answer interface role in
        let f = call interface role ssid keep in
        (f.updates ≡ updates) × ((error ≡ none) ⊎ ((f.deleted ≡ []) × (f.error ≡ error)))
  unfolding finalize_transition
  finalize_order interface infrastructure ssid keep _ =
      after_order interface infrastructure ssid keep
        (select_mode listed update_answer interface infrastructure)
  finalize_order interface standalone ssid keep _ =
      after_order interface standalone ssid keep
        (select_mode listed update_answer interface standalone)
  finalize_order interface _ ssid keep h = ground arith

  -- Without an error every superseded profile that was listed is deleted, or was gone already.
  pub finalize_complete :
      (interface : String) (role : Role) (ssid keep : String) (ps : List Profile)
      → relisted ≡ ok ps
      → (call interface role ssid keep).error ≡ none
      → All
          (λ p. (delete_answer p ≡ gone) ⊎ Memᴰ p (call interface role ssid keep).deleted)
          (superseded_profiles ps (scope_of interface role ssid) keep)
  unfolding finalize_transition
  finalize_complete interface unset ssid keep ps l h = cc
  finalize_complete interface infrastructure ssid keep ps l h =
      after-Complete interface infrastructure ssid keep
        (select_mode listed update_answer interface infrastructure) ps l h
  finalize_complete interface provisioning ssid keep ps l h =
      after-Complete interface provisioning ssid keep ([], none) ps l h
  finalize_complete interface standalone ssid keep ps l h =
      after-Complete interface standalone ssid keep
        (select_mode listed update_answer interface standalone) ps l h
