-- ===== src/Recovery/Protocol.antt =====
-- The checkpoint protocol that internal/recovery/transitions.go promises in its comments, as a
-- state machine over the calls of one transition; independent of the code that makes the calls.
use onboardd.Prelude.{
  String, Bool, ◌&&◌, none, some, List, [], ◌∷◌, ◌==◌, ◌!=◌, string_eq, if◌then◌else◌,
}
use onboardd.GoError.{ok, err}
use onboardd.NetworkManager.Types.{Role, role_eq}
use onboardd.Recovery.Client.{
  Call, created, activated, connected, started, waited, inspected, checked, finalized, committed,
  rolled_back, deleted,
}

-- `trial checkpoint candidate`: the candidate is being tried behind the checkpoint.
-- `decided`: its durable intent is recorded. `kept`: the checkpoint is committed.
-- `undone`: the checkpoint is rolled back. `stuck`: the rollback has failed.
-- `unprotected`: there is no checkpoint, so nothing may be changed. `broken`: a call that the
-- protocol forbids.
pub data Phase : Type 0 where
  idle : Phase
  trial decided : String → String → Phase
  kept : String → Phase
  undone : String → Phase
  stuck unprotected broken : Phase

-- What a transition may do: the intent that it records, the profile that it restores, and whether
-- it may delete its candidate.
pub record Terms : Type 0 where
  pub role : Role
  pub ssid : String
  pub previous : String
  pub may_delete : Bool

-- The calls of a trial.
abbrev try : Terms → String → String → Call → Phase
try t cp candidate (activated uuid a e) = trial cp a.uuid
try t cp candidate (connected options a e) = trial cp a.uuid
try t cp candidate (started options a e) = trial cp a.uuid
try t cp candidate (waited path e) = trial cp candidate
try t cp candidate (inspected s) = trial cp candidate
try t cp candidate (checked value) = trial cp candidate
try t cp candidate (finalized role ssid uuid e) =
    if role == t.role && ssid == t.ssid && uuid == candidate
    then elim e [ none ↦ decided cp candidate | some e ↦ trial cp candidate ]
    else broken
try t cp candidate (rolled_back path e) =
    if path == cp then elim e [ none ↦ undone candidate | some e ↦ stuck ] else broken
try t cp candidate _ = broken

abbrev decide : String → String → Call → Phase
decide cp candidate (committed path e) =
    if path == cp then elim e [ none ↦ kept candidate | some e ↦ decided cp candidate ] else broken
decide cp candidate (rolled_back path e) =
    if path == cp then elim e [ none ↦ undone candidate | some e ↦ stuck ] else broken
decide cp candidate _ = broken

abbrev restore : Terms → String → Call → Phase
restore t candidate (deleted uuid e) =
    if t.may_delete && uuid == candidate && uuid != "" then undone candidate else broken
restore t candidate (activated uuid a e) = if uuid == t.previous then undone candidate else broken
restore t candidate (waited path e) = undone candidate
restore t candidate (inspected s) = undone candidate
restore t candidate _ = broken

abbrev begin : Call → Phase
begin (created (ok cp)) = trial cp ""
begin (created (err e)) = unprotected
begin _ = broken

abbrev pub advance : Terms → Phase → Call → Phase
advance t idle call = begin call
advance t (trial cp candidate) call = try t cp candidate call
advance t (decided cp candidate) call = decide cp candidate call
advance t (undone candidate) call = restore t candidate call
advance t _ call = broken

-- The phase after a log, whose last call stands first.
abbrev pub phase : Terms → List Call → Phase
phase t [] = idle
phase t (call ∷ calls) = advance t (phase t calls) call
