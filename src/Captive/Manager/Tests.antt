-- ===== src/Captive/Manager/Tests.antt =====
-- Tests of internal/captive/manager.go: the redirect cannot be installed, its removal fails once, and
-- leaving finishes the work.
use onboardd.Prelude.{none, some, true, false, List, [], ◌∷◌, refl, ◌≡◌}
use onboardd.GoError.{new}
use onboardd.Captive.Manager.{
  Answers, new_manager, remove_redirect, stop_session, cleanup, enter_provisioning,
  leave_provisioning, Op, enter, apply_all,
}
use onboardd.Captive.Manager.Laws.{
  Knows, session_remains, rules_remain, apply_all-Knows, leave_provisioning_done,
}

abbrev fine : Answers
fine = record {
  first_remove = none;
  first_stop = none;
  session = true;
  start = none;
  install = none;
  remove = none;
  stop = none;
  sweep = none;
}

abbrev broken_redirect : Answers
broken_redirect = record fine { install = some (new "nft: busy"); remove = some (new "nft: busy") }

abbrev half_way : List Op
half_way = enter broken_redirect ∷ []

rules_are_remembered : (apply_all new_manager half_way).redirect_needs_remove ≡ true
unfolding enter_provisioning cleanup remove_redirect stop_session
rules_are_remembered = refl

leaves_cleanly : (leave_provisioning (apply_all new_manager half_way) fine).1 ≡ none
unfolding enter_provisioning leave_provisioning cleanup remove_redirect stop_session
leaves_cleanly = refl

apply_all-Knows_example : Knows (apply_all new_manager half_way)
apply_all-Knows_example = apply_all-Knows half_way

leave_provisioning_done_example :
    let m = (leave_provisioning (apply_all new_manager half_way) fine).0 in
    (session_remains m.events ≡ false) × (rules_remain m.events ≡ false) × (m.active ≡ false)
leave_provisioning_done_example = leave_provisioning_done half_way fine leaves_cleanly
