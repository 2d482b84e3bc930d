-- ===== src/Connectivity.antt =====
-- internal/connectivity/policy.go: what a product needs of the network, and whether an observation
-- meets it.
mod Tests
use onboardd.Prelude.{
  String, ◌≡◌, ◌↔◌, Bool, true, false, not, ◌&&◌, Option, some, if◌then◌else◌, arith,
}
use onboardd.GoError.{Error, new}

-- `other` is any string but the two constants.
pub data Requirement : Type 0 where
  local internet : Requirement
  other : String → Requirement

pub data InternetState : Type 0 where
  unknown none portal limited full : InternetState

pub record Observation : Type 0 where
  pub activated : Bool
  pub has_local_address : Bool
  pub internet : InternetState

pub record Verdict : Type 0 where
  pub accepted : Bool
  pub reason : String

unfoldable pub validate : Requirement → Option Error
validate Requirement.local = Option.none
validate Requirement.internet = Option.none
validate (Requirement.other s) = some (new "unknown connectivity requirement")

abbrev pub is_internet : Requirement → Bool
is_internet Requirement.internet = true
is_internet _ = false

abbrev pub is_full : InternetState → Bool
is_full InternetState.full = true
is_full _ = false

unfoldable pub evaluate : Requirement → Observation → Verdict
evaluate requirement o =
    if not o.activated
    then record { accepted = false; reason = "device-not-activated" }
    else if not o.has_local_address
    then record { accepted = false; reason = "no-local-address" }
    else if is_internet requirement && not (is_full o.internet)
    then record { accepted = false; reason = "internet-not-confirmed" }
    else record { accepted = true; reason = "requirement-satisfied" }

-- An observation is accepted exactly when the device is activated, has a local address and, if the
-- requirement is the Internet, reports full connectivity.
pub evaluate-accepted_iff :
    (requirement : Requirement) (o : Observation)
    → ((evaluate requirement o).accepted ≡ true) ↔ (
        (o.activated ≡ true)
        × (o.has_local_address ≡ true)
        × (requirement ≡ Requirement.internet → o.internet ≡ InternetState.full))
unfolding evaluate
evaluate-accepted_iff requirement o = ground arith
