-- ===== src/NetworkManager/Types/Tests.antt =====
-- Tests of internal/networkmanager/types.go.
use onboardd.Prelude.{refl, ◌≡◌}
use onboardd.NetworkManager.Types.{wpa2, access_point_security}

mixed_mode_is_wpa2 : access_point_security 1 256 256 ≡ wpa2
unfolding access_point_security
mixed_mode_is_wpa2 = refl
