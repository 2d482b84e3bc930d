-- ===== src/Captive/Manager/Laws.antt =====
-- The manager forgets nothing that it has set up, and sets nothing up twice.
use onboardd.Prelude.{
  Bool, true, false, if_intro, ◌||◌, Option, none, some, List, [], ◌∷◌, refl, ◌≡◌, ◌⊎◌, arith,
}
use onboardd.GoError.{Error}
use onboardd.Captive.Manager.{
  Event, started, installed, removed, stopped, swept, Manager, Answers, new_manager, cleanup,
  after_cleanup, remove_redirect, stop_session, enter_provisioning, leave_provisioning,
  recover_startup, Op, enter, leave, recover, apply, apply_all,
}

-- Redirect rules may be left: an installation, failed or not, since which no removal succeeded.
abbrev pub rules_remain : List Event → Bool
rules_remain [] = false
rules_remain (installed e ∷ es) = true
rules_remain (removed none ∷ es) = false
rules_remain (removed (some e) ∷ es) = rules_remain es
rules_remain (started b e ∷ es) = rules_remain es
rules_remain (stopped e ∷ es) = rules_remain es
rules_remain (swept e ∷ es) = rules_remain es

-- A session is left: one was started, since which no stop succeeded.
abbrev pub session_remains : List Event → Bool
session_remains [] = false
session_remains (started b e ∷ es) = b || session_remains es
session_remains (stopped none ∷ es) = false
session_remains (_ ∷ es) = session_remains es

-- A session is started only while no session and no rules are left.
abbrev pub Exclusive : List Event → Type 0
Exclusive [] = Unit
Exclusive (started b e ∷ es) =
    (session_remains es ≡ false) × (rules_remain es ≡ false) × Exclusive es
Exclusive (_ ∷ es) = Exclusive es

-- What the manager knows is what is left.
pub record Knows (m : Manager) : Type 0 where
  pub session : m.session ≡ session_remains m.events
  pub redirect : m.redirect_needs_remove ≡ rules_remain m.events
  pub active : (m.active ≡ false) ⊎ (m.redirect_needs_remove ≡ true)
  pub exclusive : Exclusive m.events

cleanup-Knows :
    (m : Manager) (remove stop : Option Error)
    → m.active ≡ false
    → Knows m
    → Knows (cleanup m remove stop).0 × ((cleanup m remove stop).0.active ≡ false)
unfolding cleanup remove_redirect stop_session
cleanup-Knows m remove stop idle h = ground arith

cleanup_done :
    (m : Manager) (remove stop : Option Error)
    → (cleanup m remove stop).1 ≡ none
    → ((cleanup m remove stop).0.session ≡ false)
      × ((cleanup m remove stop).0.redirect_needs_remove ≡ false)
unfolding cleanup remove_redirect stop_session
cleanup_done m remove stop h = ground arith

-- What follows the clean-up of `EnterProvisioning`.
after_cleanup-Knows :
    (x : Manager × Option Error) (a : Answers)
    → x.0.active ≡ false
    → Knows x.0
    → (x.1 ≡ none → (x.0.session ≡ false) × (x.0.redirect_needs_remove ≡ false))
    → Knows (after_cleanup x a).0
after_cleanup-Knows (m, some e) a idle h clean = h
after_cleanup-Knows (m, none) a idle h clean =
    let (no_session, no_rules) = clean refl in
    let m' : Manager = record m {
      session = a.session || m.session;
      redirect_needs_remove = true;
      events = installed a.install ∷ started a.session a.start ∷ m.events;
    } in
    ground (arith, cleanup-Knows m' a.remove a.stop idle)

apply-Knows : (m : Manager) (op : Op) → Knows m → Knows (apply m op)
unfolding enter_provisioning leave_provisioning recover_startup
apply-Knows m (enter a) h =
    if_intro (λ (x : Manager × Option Error). Knows x.0) m.active (λ _. h)
      (λ idle.
        if_intro (λ (x : Manager × Option Error). Knows x.0) (m.session || m.redirect_needs_remove)
          (λ _.
            let (h', idle') = cleanup-Knows m a.first_remove a.first_stop idle h in
            after_cleanup-Knows (cleanup m a.first_remove a.first_stop) a idle' h'
              (cleanup_done m a.first_remove a.first_stop))
          (λ clear. after_cleanup-Knows (m, none) a idle h (λ _. ground arith)))
apply-Knows m (leave a) h =
    let idle : Manager = record m { active = false } in
    ground (arith, cleanup-Knows idle a.remove a.stop refl)
apply-Knows m (recover a) h = ground arith

apply_all-Knows_from : (m : Manager) (ops : List Op) → Knows m → Knows (apply_all m ops)
apply_all-Knows_from m [] h = h
apply_all-Knows_from m (op ∷ ops) h = apply_all-Knows_from (apply m op) ops (apply-Knows m op h)

-- After any operations on a new manager, whatever fails, it knows exactly what is left to clean up:
-- the redirect rules of every installation that was tried and not yet removed, and the session of
-- every start that was not yet stopped. And a session was only ever started while nothing was left.
pub apply_all-Knows : (ops : List Op) → Knows (apply_all new_manager ops)
apply_all-Knows ops = apply_all-Knows_from new_manager ops (ground arith)

leave_provisioning_done_at :
    (m : Manager) (a : Answers)
    → Knows m
    → (leave_provisioning m a).1 ≡ none
    → let m' = (leave_provisioning m a).0 in
      (session_remains m'.events ≡ false) × (rules_remain m'.events ≡ false) × (m'.active ≡ false)
unfolding leave_provisioning
leave_provisioning_done_at m a h none_failed =
    let idle : Manager = record m { active = false } in
    ground (arith, cleanup-Knows idle a.remove a.stop refl, cleanup_done idle a.remove a.stop)

-- If leaving reports no error, nothing is left: neither a session nor redirect rules. This holds
-- after any operations on a new manager.
pub leave_provisioning_done :
    (ops : List Op) (a : Answers)
    → (leave_provisioning (apply_all new_manager ops) a).1 ≡ none
    → let m = (leave_provisioning (apply_all new_manager ops) a).0 in
      (session_remains m.events ≡ false) × (rules_remain m.events ≡ false) × (m.active ≡ false)
leave_provisioning_done ops a h =
    leave_provisioning_done_at (apply_all new_manager ops) a (apply_all-Knows ops) h
