-- ===== src/Appliance/Evaluate/Tests.antt =====
-- Tests of `evaluate` of internal/appliance/engine.go.
use onboardd.Prelude.{true, false, [], ◌∷◌, refl, ◌≡◌, ◌↔◌}
use onboardd.Connectivity
use onboardd.Connectivity.{Requirement, InternetState}
use onboardd.Appliance.Types.{Mode, Stage, DeviceCondition, Snapshot}
use onboardd.Appliance.Evaluate.{has_autoconnect_profile, evaluate}
use onboardd.Appliance.Evaluate.Laws.{InfrastructureReady, evaluate-infrastructure_iff}

-- An infrastructure network behind a captive portal.
abbrev behind_portal : Snapshot
behind_portal = record {
  device_managed = true;
  device_condition = DeviceCondition.activated;
  active_uuid = "home";
  active_mode = Mode.infrastructure;
  connectivity = record {
    activated = true;
    has_local_address = true;
    internet = InternetState.portal;
  };
  profiles = record { uuid = "home"; mode = Mode.infrastructure; autoconnect = true } ∷ [];
}

portal_waits :
    (evaluate behind_portal Requirement.internet false).stage ≡ Stage.waiting_for_connectivity
unfolding evaluate has_autoconnect_profile Connectivity.evaluate
portal_waits = refl

portal_is_local : (evaluate behind_portal Requirement.local false).stage ≡ Stage.infrastructure
unfolding evaluate has_autoconnect_profile Connectivity.evaluate
portal_is_local = refl

evaluate-infrastructure_iff_example :
    ((evaluate behind_portal Requirement.local false).stage ≡ Stage.infrastructure)
    ↔ InfrastructureReady behind_portal Requirement.local
evaluate-infrastructure_iff_example =
    evaluate-infrastructure_iff behind_portal Requirement.local false
