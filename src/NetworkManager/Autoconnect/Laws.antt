-- ===== src/NetworkManager/Autoconnect/Laws.antt =====
-- What selecting a mode leaves behind, when it succeeds and when it stops half way.
use mathlib.Core.List.{Memᴰ}
use onboardd.Prelude.{
  bool_ne, String, Bool, false, ◌&&◌, if_intro, inl, inr, List, [], ◌∷◌, any, All, All-map,
  All-Memᴰ, ◌==◌, string_eq, eq_iff, if◌then◌else◌, refl, sym, subst, ◌∙◌, ◌≡◌, ◌≢◌, ◌⊎◌, arith,
}
use onboardd.GoError.{Error}
use onboardd.NetworkManager.Types.{Role, Profile, role_eq}
use onboardd.NetworkManager.Autoconnect.{
  Update, is_production, collect_updates, Answer, done, gone, failed, write_all,
}

pub Answer-cases : (a : Answer) → (a ≡ done) ⊎ (a ≡ gone) ⊎ ((e : Error) × (a ≡ failed e))
Answer-cases done = inl refl
Answer-cases gone = inr (inl refl)
Answer-cases (failed e) = inr (inr (e, refl))

-- Does an update name this path?
abbrev pub touches : String → Update → Bool
touches path u = path == u.profile.path

-- Every update that names the path writes the value.
abbrev pub Writes : String → Bool → Update → Type 0
Writes path value u = path ≡ u.profile.path → u.enabled ≡ value

pub write_all-eq :
    (us : List Update) (p : Profile) (value : Bool)
    → All (Writes p.path value) us
    → write_all us p
      ≡ (if any (touches p.path) us then record p { autoconnect = value; pending = false } else p)
write_all-eq [] p value h = refl
write_all-eq (u ∷ us) p value (w, h) = ground (
  arith,
  eq_iff p.path u.profile.path,
  write_all-eq us (record p { autoconnect = u.enabled; pending = false }) value h,
  write_all-eq us p value h,
)

-- The profiles that D-Bus lists have different paths.
abbrev pub DistinctPaths : List Profile → Type 0
DistinctPaths [] = Unit
DistinctPaths (p ∷ ps) = All (λ q. p.path ≢ q.path) ps × DistinctPaths ps

module _ (interface : String) (selected : Role) where
  abbrev pub is_updated : Profile → Bool
  is_updated p = is_production interface p && bool_ne p.autoconnect (p.role == selected)

  collect-untouched :
      (path : String) (ps : List Profile)
      → All (λ q. path ≢ q.path) ps
      → any (touches path) (collect_updates ps interface selected) ≡ false
  unfolding collect_updates
  collect-untouched path [] h = refl
  collect-untouched path (q ∷ ps) (ne, h) =
      if_intro (λ us. any (touches path) us ≡ false) (is_updated q)
        (λ _. ground (arith, eq_iff path q.path, collect-untouched path ps h))
        (λ _. collect-untouched path ps h)

  pub collect-touched :
      (p : Profile) (ps : List Profile)
      → Memᴰ p ps
      → DistinctPaths ps
      → any (touches p.path) (collect_updates ps interface selected) ≡ is_updated p
  unfolding collect_updates
  collect-touched p [] m _ = elim m [ ]
  collect-touched p (q ∷ ps) (Memᴰ.head e) (ne, distinct) = rw e (
      if_intro (λ us. any (touches q.path) us ≡ is_updated q) (is_updated q)
        (λ updated. ground (arith, eq_iff q.path q.path))
        (λ kept. collect-untouched q.path ps ne ∙ sym kept))
  collect-touched p (q ∷ ps) (Memᴰ.tail m) (ne, distinct) =
      let other = All-Memᴰ (λ r. q.path ≢ r.path) ps p ne m in
      if_intro (λ us. any (touches p.path) us ≡ is_updated p) (is_updated q)
        (λ _. ground (arith, eq_iff p.path q.path, collect-touched p ps m distinct))
        (λ _. collect-touched p ps m distinct)

  -- A profile with the path of `p` is `p`, so far as its role goes.
  abbrev pub SameRole : Profile → Profile → Type 0
  SameRole p q = p.path ≡ q.path → (q.role == selected) ≡ (p.role == selected)

  pub listed-SameRole :
      (p : Profile) (ps : List Profile) → Memᴰ p ps → DistinctPaths ps → All (SameRole p) ps
  listed-SameRole p [] m _ = elim m [ ]
  listed-SameRole p (q ∷ ps) (Memᴰ.head e) (ne, distinct) =
      subst (λ x. All (SameRole x) (q ∷ ps)) (sym e)
        (λ _. refl, All-map (λ r. q.path ≢ r.path) (SameRole q) ps (λ r h same. absurd (h same)) ne)
  listed-SameRole p (q ∷ ps) (Memᴰ.tail m) (ne, distinct) = (
    λ same. absurd (All-Memᴰ (λ r. q.path ≢ r.path) ps p ne m (sym same)),
    listed-SameRole p ps m distinct,
  )

  pub collect-Writes :
      (p : Profile) (ps : List Profile)
      → All (SameRole p) ps
      → All (Writes p.path (p.role == selected)) (collect_updates ps interface selected)
  unfolding collect_updates
  collect-Writes p [] _ = tt
  collect-Writes p (q ∷ ps) (same, h) =
      if_intro (All (Writes p.path (p.role == selected))) (is_updated q)
        (λ _. (same, collect-Writes p ps h)) (λ _. collect-Writes p ps h)
