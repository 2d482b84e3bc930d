-- ===== src/NetworkManager/Types/Laws.antt =====
-- How a status of the adapter meets the connectivity policy.
use onboardd.Prelude.{◌≡◌, ◌≢◌, ◌↔◌, true, [], arith}
use onboardd.Connectivity
use onboardd.Connectivity.{Requirement}
use onboardd.NetworkManager.Types.{Status, observation}

-- A status of NetworkManager meets the Internet requirement exactly if the device state is
-- 100 (activated), there is an IPv4 address, and the connectivity is 4 (full); and the local
-- requirement exactly if the first two hold.
pub observation-accepted_iff :
    (status : Status)
    → (((Connectivity.evaluate Requirement.internet (observation status)).accepted ≡ true) ↔ (
        (status.device.state ≡ 100)
        × (status.device.ipv4_addresses ≢ [])
        × (status.connectivity ≡ 4)))
      × (((Connectivity.evaluate Requirement.local (observation status)).accepted ≡ true)
          ↔ ((status.device.state ≡ 100) × (status.device.ipv4_addresses ≢ [])))
unfolding observation Connectivity.evaluate
observation-accepted_iff status = ground arith
