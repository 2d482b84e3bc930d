-- ===== src/Connectivity/Tests.antt =====
-- Tests of internal/connectivity/policy.go.
use onboardd.Prelude.{◌≡◌, refl, true}
use onboardd.Connectivity.{Requirement, InternetState, Observation, evaluate}

abbrev portal_only : Observation
portal_only = record { activated = true; has_local_address = true; internet = InternetState.portal }

portal_local : (evaluate Requirement.local portal_only).accepted ≡ true
unfolding evaluate
portal_local = refl
