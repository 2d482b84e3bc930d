-- ===== src/NetworkManager/Autoconnect/Selected.antt =====
-- What selecting a mode leaves behind when it succeeds.
use mathlib.Core.List.{Memᴰ}
use onboardd.Prelude.{
  bool_ne, String, Bool, false, ◌&&◌, inl, inr, none, List, [], ◌∷◌, any, All, pointwise-All, ◌==◌,
  string_eq, eq_iff, if◌then◌else◌, refl, ◌∙◌, ◌≡◌, arith,
}
use onboardd.Prelude.Sort.{slice_stable, any-slice_stable, All-slice_stable}
use onboardd.GoError.{ok}
use onboardd.NetworkManager.Types.{Role, Profile, role_eq}
use onboardd.NetworkManager.Autoconnect.{
  Update, is_production, collect_updates, enabled_first, autoconnect_updates, Answer, select_loop,
  select_mode, write_all,
}
use onboardd.NetworkManager.Autoconnect.Laws.{
  Answer-cases, touches, Writes, write_all-eq, DistinctPaths, collect-touched, listed-SameRole,
  collect-Writes,
}
use onboardd.NetworkManager.Autoconnect.Order.{Exists, All-made}

-- An owned profile of the interface whose flag has to change is written, which commits it too.
abbrev chosen : String → Profile → Bool → Profile
chosen interface p flag =
    if p.owned && p.interface == interface && bool_ne p.autoconnect flag
    then record p { autoconnect = flag; pending = false }
    else p

-- What a profile should look like once the mode is selected.
abbrev pub target : String → Role → Profile → Profile
target interface selected p = elim p.role [
  | Role.unset ↦ p
  | Role.provisioning ↦ p
  | Role.infrastructure ↦ chosen interface p (selected == Role.infrastructure)
  | Role.standalone ↦ chosen interface p (selected == Role.standalone)
]

module _ (answer : Update → Answer) (p : Profile) where
  -- A loop that ends without an error has made the updates of every profile that is there.
  select_loop-touched :
      (us : List Update)
      → (select_loop answer us).1 ≡ none
      → All (Exists answer p) us
      → any (touches p.path) (select_loop answer us).0 ≡ any (touches p.path) us
  unfolding select_loop
  select_loop-touched [] h here = refl
  select_loop-touched (u ∷ us) h (exists, here) = elim (Answer-cases (answer u)) [
    | inl e ↦
        let rest = select_loop-touched us (ground arith) here in rw (e, select_loop) (ground arith)
    | inr (inl e) ↦
        let rest = select_loop-touched us (ground arith) here in
        let other : (p.path == u.profile.path) ≡ false =
          ground (arith, eq_iff p.path u.profile.path, exists) in
        rw (e, select_loop) (ground arith)
    | inr (inr (x, e)) ↦ ground arith
  ]

-- A mode is selected without an error, where the listed profiles have different paths. Each owned
-- infrastructure or standalone profile of the interface that was listed, and that D-Bus does not
-- report as gone, is then started automatically exactly if its role is the selected one, and has lost
-- the mark of a profile on trial if its flag had to change; every other listed profile is as it was.
pub select_mode-target :
    (ps : List Profile) (answer : Update → Answer) (interface : String) (selected : Role)
    (p : Profile)
    → DistinctPaths ps
    → Memᴰ p ps
    → ((u : Update) → Exists answer p u)
    → (select_mode (ok ps) answer interface selected).1 ≡ none
    → write_all (select_mode (ok ps) answer interface selected).0 p ≡ target interface selected p
unfolding select_mode autoconnect_updates is_production
select_mode-target ps answer interface selected p distinct m exists done =
    let us = collect_updates ps interface selected in
    let sorted = slice_stable enabled_first us in
    let value = p.role == selected in
    let w : All (Writes p.path value) sorted =
      All-slice_stable enabled_first (Writes p.path value) us (
        collect-Writes interface selected p ps
          (listed-SameRole interface selected p ps m distinct)) in
    let written =
      write_all-eq (select_loop answer sorted).0 p value
        (All-made answer p (Writes p.path value) sorted w) in
    let touched =
      select_loop-touched answer p sorted done (pointwise-All (Exists answer p) sorted exists)
      ∙ any-slice_stable enabled_first (touches p.path) us
      ∙ collect-touched interface selected p ps m distinct in
    rw (written, touched) (ground arith)
