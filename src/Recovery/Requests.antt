-- ===== src/Recovery/Requests.antt =====
-- `Requests` of internal/recovery/control.go: manual recovery requests, coalesced. The mutex makes
-- each method one step; `notify` says whether the one-place channel holds a notification.
mod Tests
use onboardd.Prelude.{
  Bool, true, false, List, [], ◌∷◌, if◌then◌else◌, ◌≡◌, ◌↔◌, ◌⊎◌, inl, inr, refl, arith,
}

pub record Requests : Type 0 where
  pub pending : Bool
  pub notify : Bool

abbrev pub new_requests : Requests
new_requests = record { pending = false; notify = false }

-- A send on a full channel takes the `default` case.
unfoldable pub request : Requests → Requests × Bool
request r = if r.pending then (r, false) else (record { pending = true; notify = true }, true)

unfoldable pub complete : Requests → Requests
complete r = record { pending = false; notify = false }

-- The controller's receive on `Notifications()`, which is ready only while the channel is full.
unfoldable pub receive : Requests → Requests
receive r = record r { notify = false }

-- No notification outlives the request that it announces.
abbrev pub Coalesced : Requests → Type 0
Coalesced r = (r.notify ≡ false) ⊎ (r.pending ≡ true)

pub data Op : Type 0 where
  request_op complete_op receive_op : Op

abbrev pub apply : Op → Requests → Requests
apply request_op r = (request r).0
apply complete_op r = complete r
apply receive_op r = receive r

abbrev pub apply_all : List Op → Requests → Requests
apply_all [] r = r
apply_all (op ∷ ops) r = apply_all ops (apply op r)

-- The abstract view: is a recovery wanted?
abbrev pub wanted : List Op → Bool → Bool
wanted [] b = b
wanted (request_op ∷ ops) b = wanted ops true
wanted (complete_op ∷ ops) b = wanted ops false
wanted (receive_op ∷ ops) b = wanted ops b

apply-Coalesced : (op : Op) (r : Requests) → Coalesced r → Coalesced (apply op r)
unfolding request complete receive
apply-Coalesced request_op r h = ground arith
apply-Coalesced complete_op r h = ground arith
apply-Coalesced receive_op r h = ground arith

apply_all_from :
    (ops : List Op) (r : Requests)
    → Coalesced r
    → Coalesced (apply_all ops r) × ((apply_all ops r).pending ≡ wanted ops r.pending)
unfolding request complete receive
apply_all_from [] r h = (h, refl)
apply_all_from (request_op ∷ ops) r h =
    ground (arith, apply_all_from ops (request r).0 (apply-Coalesced request_op r h))
apply_all_from (complete_op ∷ ops) r h = apply_all_from ops (complete r) (inl refl)
apply_all_from (receive_op ∷ ops) r h =
    ground (arith, apply_all_from ops (receive r) (apply-Coalesced receive_op r h))

-- After any calls on a new request set, in any order, a request is pending exactly if the last
-- call of `Request` or `Complete` was a `Request`; and the channel holds no notification of a
-- request that is no longer pending.
pub apply_all-wanted :
    (ops : List Op)
    → Coalesced (apply_all ops new_requests)
      × ((apply_all ops new_requests).pending ≡ wanted ops false)
apply_all-wanted ops = apply_all_from ops new_requests (inl refl)
