-- ===== src/Captive/Manager.antt =====
-- internal/captive/manager.go: entering and leaving captive mode. The mutex makes each operation one
-- step. The provisioner, the session and the port redirect answer with the operation; what they
-- were asked is logged, the last call first.
pub mod Laws
mod Tests
use onboardd.Prelude.{
  Bool, true, false, not, ◌&&◌, ◌||◌, Option, none, some, List, [], ◌∷◌, if◌then◌else◌,
}
use onboardd.GoError.{Error, new, wrap, join_some, wrap_some}

-- `started` says whether a session came with the answer, which may be so despite an error.
pub data Event : Type 0 where
  started : Bool → Option Error → Event
  installed removed stopped swept : Option Error → Event

-- `session` is `m.session != nil`.
pub record Manager : Type 0 where
  pub session : Bool
  pub redirect_needs_remove : Bool
  pub active : Bool
  pub events : List Event

-- `first_remove` and `first_stop` are for the clean-up before a start, `remove` and `stop` for the
-- one after it.
pub record Answers : Type 0 where
  pub first_remove : Option Error
  pub first_stop : Option Error
  pub session : Bool
  pub start : Option Error
  pub install : Option Error
  pub remove : Option Error
  pub stop : Option Error
  pub sweep : Option Error

abbrev pub new_manager : Manager
new_manager = record { session = false; redirect_needs_remove = false; active = false; events = [] }

abbrev pub log : Manager → Event → Manager
log m e = record m { events = e ∷ m.events }

abbrev pub failed : Option Error → Bool
failed none = false
failed (some e) = true

-- The two halves of `cleanupLocked`.
unfoldable pub remove_redirect : Manager → Option Error → Manager × Option Error
remove_redirect m answer =
    if m.redirect_needs_remove
    then (
      record (log m (removed answer)) { redirect_needs_remove = failed answer },
      wrap_some "remove captive HTTP redirect" answer,
    )
    else (m, none)

unfoldable pub stop_session : Manager → Option Error → Manager × Option Error
stop_session m answer =
    if m.session
    then (record (log m (stopped answer)) { session = failed answer }, answer)
    else (m, none)

unfoldable pub cleanup : Manager → Option Error → Option Error → Manager × Option Error
unfolding remove_redirect stop_session
cleanup m remove stop =
    let (m', e) = remove_redirect m remove in
    let (m'', f) = stop_session m' stop in (m'', join_some e f)

-- The parts of `EnterProvisioning`, last part first.
abbrev pub after_install : Manager → Option Error → Answers → Manager × Option Error
after_install m none a = (record m { active = true }, none)
after_install m (some e) a =
    let (m', f) = cleanup m a.remove a.stop in
    (m', join_some (some (wrap "install captive HTTP redirect" e)) f)

abbrev pub after_start : Manager → Option Error → Answers → Manager × Option Error
after_start m (some e) a = (m, some e)
after_start m none a =
    after_install (record (log m (installed a.install)) { redirect_needs_remove = true }) a.install
      a

abbrev pub after_cleanup : Manager × Option Error → Answers → Manager × Option Error
after_cleanup (m, some e) a = (m, some (wrap "finish previous captive cleanup" e))
after_cleanup (m, none) a =
    after_start (record (log m (started a.session a.start)) { session = a.session || m.session })
      a.start a

unfoldable pub enter_provisioning : Manager → Answers → Manager × Option Error
unfolding cleanup
enter_provisioning m a =
    if m.active
    then (m, none)
    else if m.session || m.redirect_needs_remove
    then after_cleanup (cleanup m a.first_remove a.first_stop) a
    else after_cleanup (m, none) a

unfoldable pub leave_provisioning : Manager → Answers → Manager × Option Error
unfolding cleanup
leave_provisioning m a =
    if not m.session && not m.redirect_needs_remove
    then (m, none)
    else cleanup (record m { active = false }) a.remove a.stop

unfoldable pub recover_startup : Manager → Answers → Manager × Option Error
recover_startup m a =
    if m.active || m.session || m.redirect_needs_remove
    then (m, some (new "startup recovery requires an unused captive manager"))
    else (
      log (log m (removed a.remove)) (swept a.sweep),
      join_some (wrap_some "remove stale captive HTTP redirect" a.remove) a.sweep,
    )

pub data Op : Type 0 where
  enter leave recover : Answers → Op

abbrev pub apply : Manager → Op → Manager
apply m (enter a) = (enter_provisioning m a).0
apply m (leave a) = (leave_provisioning m a).0
apply m (recover a) = (recover_startup m a).0

abbrev pub apply_all : Manager → List Op → Manager
apply_all m [] = m
apply_all m (op ∷ ops) = apply_all (apply m op) ops
