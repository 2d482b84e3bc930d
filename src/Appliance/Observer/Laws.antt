-- ===== src/Appliance/Observer/Laws.antt =====
-- What a snapshot says of the profiles.
use mathlib.Core.List.{Memᴰ}
use onboardd.Prelude.{
  String, Bool, true, false, ◌&&◌, if_intro, List, [], ◌∷◌, All, All-map, any, ◌==◌, string_eq,
  eq_iff, refl, sym, ap, ◌||◌, ◌!=◌, if◌then◌else◌, ◌∙◌, ◌≡◌, ◌≢◌, arith,
}
use onboardd.GoError.{ok, ok-injective}
use onboardd.NetworkManager.Types.{Profile, Status}
use onboardd.Appliance.Types.{Mode, Snapshot, mode_eq, mode_beq_iff}
use onboardd.Appliance.Evaluate.{has_autoconnect_profile}
use onboardd.Appliance.Observer.{profile_mode, normalized_profiles, active_mode, observe}

-- The profile is selected for this mode on this interface.
abbrev pub selects : String → Mode → Profile → Bool
selects interface mode p = p.interface == interface && profile_mode p == mode && p.autoconnect

and_left : (a b : Bool) → (a && b) ≡ true → a ≡ true
and_left a b h = ground arith

listed_step : (a b c : Bool) {x y : Bool} → a ≡ true → x ≡ y → (b && c || x) ≡ (a && b && c || y)
listed_step a b c h e = ground arith

dropped_step :
    (interface : String) (mode : Mode) (p : Profile) (rest : Bool)
    → mode ≢ Mode.none
    → (p.interface == interface && profile_mode p != Mode.none) ≡ false
    → rest ≡ (selects interface mode p || rest)
dropped_step interface mode p rest ne dropped =
    ground (arith, mode_beq_iff (profile_mode p) mode, mode_beq_iff (profile_mode p) Mode.none)

has_autoconnect-any :
    (interface : String) (mode : Mode) (ps : List Profile)
    → mode ≢ Mode.none
    → has_autoconnect_profile (normalized_profiles interface ps) mode
      ≡ any (selects interface mode) ps
unfolding has_autoconnect_profile normalized_profiles
has_autoconnect-any interface mode [] ne = refl
has_autoconnect-any interface mode (p ∷ ps) ne =
    if_intro (λ qs. has_autoconnect_profile qs mode ≡ any (selects interface mode) (p ∷ ps))
      (p.interface == interface && profile_mode p != Mode.none)
      (λ listed.
        listed_step (p.interface == interface) (profile_mode p == mode) p.autoconnect
          (and_left _ _ listed) (has_autoconnect-any interface mode ps ne))
      (λ dropped.
        has_autoconnect-any interface mode ps ne ∙ dropped_step interface mode p _ ne dropped)

active_mode-other :
    (uuid : String) (mode : Mode) (ps : List Profile)
    → All (λ p. p.uuid ≢ uuid) ps
    → active_mode uuid mode ps ≡ mode
unfolding active_mode
active_mode-other uuid mode [] h = refl
active_mode-other uuid mode (p ∷ ps) (ne, h) =
    ground (arith, eq_iff p.uuid uuid, active_mode-other uuid mode ps h)

abbrev pub DistinctUuids : List Profile → Type 0
DistinctUuids [] = Unit
DistinctUuids (p ∷ ps) = All (λ q. q.uuid ≢ p.uuid) ps × DistinctUuids ps

active_mode-listed :
    (uuid : String) (mode : Mode) (p : Profile) (ps : List Profile)
    → DistinctUuids ps
    → Memᴰ p ps
    → p.uuid ≡ uuid
    → active_mode uuid mode ps ≡ profile_mode p
unfolding active_mode
active_mode-listed uuid mode p [] distinct m e = elim m [ ]
active_mode-listed uuid mode p (q ∷ ps) (ne, distinct) (Memᴰ.head h) e =
    let here : q.uuid ≡ uuid = ap (λ (r : Profile). r.uuid) (sym h) ∙ e in
    let mode' = if q.uuid == uuid then profile_mode q else mode in
    let chosen : mode' ≡ profile_mode q = ground (arith, eq_iff q.uuid uuid) in
    active_mode-other uuid mode' ps (
      All-map (λ r. r.uuid ≢ q.uuid) (λ r. r.uuid ≢ uuid) ps (λ r h' same. h' (same ∙ sym here)) ne)
    ∙ chosen
    ∙ ap profile_mode (sym h)
active_mode-listed uuid mode p (q ∷ ps) (ne, distinct) (Memᴰ.tail m) e =
    active_mode-listed uuid (if q.uuid == uuid then profile_mode q else mode) p ps distinct m e

-- A snapshot takes its mode from the listed profile whose UUID the device reports as active, on
-- whatever interface, if the profiles have different UUIDs.
pub observe-active :
    (status : Status) (ps : List Profile) (interface : String) (s : Snapshot) (p : Profile)
    → DistinctUuids ps
    → observe (ok status) (ok ps) interface ≡ ok s
    → Memᴰ p ps
    → p.uuid ≡ status.device.active_uuid
    → s.active_mode ≡ profile_mode p
unfolding observe
observe-active status ps interface s p distinct e m same =
    ap (λ (t : Snapshot). t.active_mode) (sym (ok-injective e))
    ∙ active_mode-listed status.device.active_uuid Mode.none p ps distinct m same

-- A mode other than `none` is selected in a snapshot exactly if some listed profile of this
-- interface in that mode starts automatically.
pub observe-selected :
    (status : Status) (ps : List Profile) (interface : String) (s : Snapshot) (mode : Mode)
    → observe (ok status) (ok ps) interface ≡ ok s
    → mode ≢ Mode.none
    → has_autoconnect_profile s.profiles mode ≡ any (selects interface mode) ps
unfolding observe
observe-selected status ps interface s mode e ne =
    ap (λ (t : Snapshot). has_autoconnect_profile t.profiles mode) (sym (ok-injective e))
    ∙ has_autoconnect-any interface mode ps ne
