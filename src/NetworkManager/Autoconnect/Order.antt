-- ===== src/NetworkManager/Autoconnect/Order.antt =====
-- Why the enabling updates stand first: what a selection that stops half way leaves behind.
use mathlib.Core.List.{Memᴰ}
use onboardd.Prelude.{
  String, Bool, true, false, not, ◌&&◌, Bool-cases, if_intro, inl, inr, List, [], ◌∷◌, any, All,
  pointwise-All, ◌==◌, string_eq, eq_iff, refl, subst, ◌∙◌, ◌≡◌, ◌≢◌, ◌⊎◌, arith,
}
use onboardd.Prelude.Sort.{slice_stable, insert_stable, any-slice_stable, All-slice_stable}
use onboardd.GoError.{ok}
use onboardd.NetworkManager.Types.{Role, Profile, role_eq, role_beq_iff}
use onboardd.NetworkManager.Autoconnect.{
  Update, is_production, collect_updates, enabled_first, autoconnect_updates, Answer, gone,
  select_loop, select_mode, write_all,
}
use onboardd.NetworkManager.Autoconnect.Laws.{
  Answer-cases, touches, Writes, write_all-eq, DistinctPaths, is_updated, collect-touched,
  listed-SameRole, collect-Writes,
}

-- No update that disables a profile stands before one that enables a profile.
abbrev EnabledFirst : List Update → Type 0
EnabledFirst [] = Unit
EnabledFirst (u ∷ us) = (u.enabled ≡ false → All (λ v. v.enabled ≡ false) us) × EnabledFirst us

and_left : (a b : Bool) → (a && b) ≡ true → a ≡ true
and_left a b h = ground arith

not_less : (v u : Update) → enabled_first v u ≡ false → u.enabled ≡ false → v.enabled ≡ false
not_less v u h off = ground arith

insert-EnabledFirst :
    (u : Update) (us : List Update)
    → EnabledFirst us
    → EnabledFirst (insert_stable enabled_first u us)
unfolding insert_stable
insert-EnabledFirst u [] h = ground arith
insert-EnabledFirst u (v ∷ us) (first, h) =
    if_intro EnabledFirst (enabled_first v u)
      (λ less.
        (λ off. cc (off, and_left v.enabled (not u.enabled) less), insert-EnabledFirst u us h))
      (λ keep. (λ off. let v_off = not_less v u keep off in (v_off, first v_off), (first, h)))

slice-EnabledFirst : (us : List Update) → EnabledFirst (slice_stable enabled_first us)
unfolding slice_stable
slice-EnabledFirst [] = tt
slice-EnabledFirst (u ∷ us) =
    insert-EnabledFirst u (slice_stable enabled_first us) (slice-EnabledFirst us)

-- A candidate of the selected mode starts automatically, or nothing has been disabled.
abbrev pub StillStarts : Profile → List Update → Type 0
StillStarts p us = ((write_all us p).autoconnect ≡ true) ⊎ All (λ u. u.enabled ≡ true) us

-- D-Bus does not answer that the profile is gone.
abbrev pub Exists : (Update → Answer) → Profile → Update → Type 0
Exists answer p u = p.path ≡ u.profile.path → answer u ≢ gone

disabled_later :
    (p : Profile) (us : List Update)
    → All (λ u. u.enabled ≡ false) us
    → All (Writes p.path true) us
    → any (touches p.path) us ≡ false
disabled_later p [] off w = refl
disabled_later p (u ∷ us) (o, off) (w, ws) =
    ground (arith, eq_iff p.path u.profile.path, disabled_later p us off ws)

module _ (answer : Update → Answer) (p : Profile) where
  pub All-made {κ} :
      (P : Update → Type κ) (us : List Update) → All P us → All P (select_loop answer us).0
  unfolding select_loop
  All-made P [] h = tt
  All-made P (u ∷ us) (h, hs) = elim (Answer-cases (answer u)) [
    | inl e ↦ rw (e, select_loop) (h, All-made P us hs)
    | inr (inl e) ↦ rw (e, select_loop) (All-made P us hs)
    | inr (inr (x, e)) ↦ rw (e, select_loop) tt
  ]

  already-StillStarts :
      (us : List Update)
      → All (Writes p.path true) us
      → p.autoconnect ≡ true
      → (write_all us p).autoconnect ≡ true
  already-StillStarts us w on = rw (write_all-eq us p true w) (ground arith)

  written_on :
      (us : List Update)
      → All (Writes p.path true) us
      → any (touches p.path) us ≡ true
      → (write_all us p).autoconnect ≡ true
  written_on us w t = rw (write_all-eq us p true w, t)

  -- One more update, of another profile, that was made.
  cons-StillStarts :
      (u : Update) (us : List Update)
      → (p.path == u.profile.path) ≡ false
      → u.enabled ≡ true
      → StillStarts p us
      → StillStarts p (u ∷ us)
  cons-StillStarts u us other on (inl h) = inl (rw (other, write_all) h)
  cons-StillStarts u us other on (inr h) = inr (on, h)

  touched-StillStarts :
      (us : List Update)
      → All (Writes p.path true) us
      → EnabledFirst us
      → All (Exists answer p) us
      → any (touches p.path) us ≡ true
      → StillStarts p (select_loop answer us).0
  unfolding select_loop
  touched-StillStarts [] w first here t = inr tt
  touched-StillStarts (u ∷ us) (w, ws) (first, rest) (exists, here) t =
      let later = λ (t' : any (touches p.path) us ≡ true). touched-StillStarts us ws rest here t' in
      elim (Answer-cases (answer u)) [
        | inl e ↦
            rw (e, select_loop)
              (elim (Bool-cases (p.path == u.profile.path)) [
                | inl same ↦ inl (
                    written_on (u ∷ (select_loop answer us).0)
                      (w, All-made (Writes p.path true) us ws) (ground arith))
                | inr other ↦
                    let t' : any (touches p.path) us ≡ true = ground arith in
                    cons-StillStarts u _ other (ground (arith, first, disabled_later p us, ws, t'))
                      (later t')
              ])
        | inr (inl e) ↦
            rw (e, select_loop)
              (elim (Bool-cases (p.path == u.profile.path)) [
                | inl same ↦ absurd (exists ((eq_iff _ _).0 same) e)
                | inr other ↦ later (ground arith)
              ])
        | inr (inr (x, e)) ↦ rw (e, select_loop) (inr tt)
      ]

-- A listed profile of the selected mode on the interface, owned by onboardd, that D-Bus does not
-- report as gone, where the listed profiles have different paths: wherever the selection stops, with
-- an error or at the end, either that profile starts automatically, or every update that was made
-- enabled a profile, so none has been disabled.
pub select_mode-StillStarts :
    (ps : List Profile) (answer : Update → Answer) (interface : String) (selected : Role)
    (p : Profile)
    → DistinctPaths ps
    → Memᴰ p ps
    → is_production interface p ≡ true
    → p.role ≡ selected
    → ((u : Update) → Exists answer p u)
    → StillStarts p (select_mode (ok ps) answer interface selected).0
unfolding select_mode autoconnect_updates
select_mode-StillStarts ps answer interface selected p distinct m production role exists =
    let us = collect_updates ps interface selected in
    let sorted = slice_stable enabled_first us in
    let chosen : (p.role == selected) ≡ true = (role_beq_iff _ _).1 role in
    let w : All (Writes p.path true) sorted =
      All-slice_stable enabled_first (Writes p.path true) us (
        subst (λ b. All (Writes p.path b) us) chosen
          (collect-Writes interface selected p ps
            (listed-SameRole interface selected p ps m distinct))) in
    let touched : any (touches p.path) sorted ≡ is_updated interface selected p =
      any-slice_stable enabled_first (touches p.path) us
      ∙ collect-touched interface selected p ps m distinct in
    elim (Bool-cases p.autoconnect) [
      | inl on ↦ inl (
          already-StillStarts answer p (select_loop answer sorted).0
            (All-made answer p (Writes p.path true) sorted w) on)
      | inr off ↦
          touched-StillStarts answer p sorted w (slice-EnabledFirst us)
            (pointwise-All (Exists answer p) sorted exists) (ground arith)
    ]
