-- ===== src/Recovery/Requests/Tests.antt =====
-- Tests of `Requests` of internal/recovery/control.go.
use onboardd.Prelude.{false, List, [], ◌∷◌, ◌≡◌}
use onboardd.Recovery.Requests.{
  new_requests, Coalesced, Op, request_op, complete_op, receive_op, apply_all, wanted,
  apply_all-wanted,
}

abbrev twice : List Op
twice = request_op ∷ receive_op ∷ request_op ∷ complete_op ∷ request_op ∷ []

apply_all-wanted_example :
    Coalesced (apply_all twice new_requests)
    × ((apply_all twice new_requests).pending ≡ wanted twice false)
apply_all-wanted_example = apply_all-wanted twice
