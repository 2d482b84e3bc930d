-- ===== src/SetupFlow/Reads.antt =====
-- The reads of internal/setupflow/service.go, and the checks of its start methods: what they make of
-- the answers of the backend.
pub mod Laws
mod Tests
use onboardd.Prelude.{
  text_less, bool_ne, ℕ, String, Bool, true, false, not, ◌&&◌, ◌||◌, Option, none, some, List, [],
  ◌∷◌, ltb, ◌==◌, ◌!=◌, ℕ_eq, string_eq, if◌then◌else◌,
}
use onboardd.Prelude.Sort.{slice_stable}
use onboardd.GoError.{Error, Result, ok, err}
use onboardd.SetupFlow.Types.{
  Mode, Operation, OperationKind, Network, KnownNetwork, ConnectionRequest, active_network,
  network_read_only, known_network_not_found, mode_unavailable_network, mode_unavailable_standalone,
}
use onboardd.SetupFlow.Slot.{
  Action, Service, Started, Forget, accepted, refused, conflict, start, begin_forget,
  latest_operation,
}

pub record Capabilities : Type 0 where
  pub network : Bool
  pub standalone : Bool

-- The key of `unique`: the texts of a security hold no NUL, so two keys are equal if both are.
abbrev pub same_key : Network → Network → Bool
same_key a b = a.ssid == b.ssid && a.security == b.security

-- One round of the loop: the entry of the key is replaced by a stronger one.
unfoldable pub keep_strongest : Network → List Network → List Network
keep_strongest n [] = n ∷ []
keep_strongest n (m ∷ ms) =
    if same_key n m
    then (if ltb m.strength n.strength then n ∷ ms else m ∷ ms)
    else m ∷ keep_strongest n ms

unfoldable pub strongest : List Network → List Network → List Network
unfolding keep_strongest
strongest unique [] = unique
strongest unique (n ∷ ns) = strongest (if n.ssid == "" then unique else keep_strongest n unique) ns

abbrev pub network_less : Network → Network → Bool
network_less left right =
    if left.strength == right.strength
    then text_less left.ssid right.ssid
    else ltb right.strength left.strength

-- `shuffle` is the order in which the map is read.
unfoldable pub networks :
    Capabilities → (List Network → List Network) → Result (List Network) → Result (List Network)
unfolding strongest
networks c shuffle found = if not c.network then err mode_unavailable_network else elim found [
  | err e ↦ err e
  | ok found ↦ ok (slice_stable network_less (shuffle (strongest [] found)))
]

abbrev pub known_less : KnownNetwork → KnownNetwork → Bool
known_less left right =
    if bool_ne left.active right.active
    then left.active
    else if left.ssid != right.ssid
    then text_less left.ssid right.ssid
    else if bool_ne left.managed right.managed
    then left.managed
    else text_less left.uuid right.uuid

unfoldable pub known_networks :
    Capabilities → Result (List KnownNetwork) → Result (List KnownNetwork)
known_networks c known =
    if not c.network
    then err mode_unavailable_network
    else elim known [ err e ↦ err e | ok known ↦ ok (slice_stable known_less known) ]

unfoldable pub find_known : String → List KnownNetwork → Option KnownNetwork
find_known uuid [] = none
find_known uuid (k ∷ ks) = if k.uuid == uuid then some k else find_known uuid ks

-- The refusals of `StartKnownNetwork` before it reserves the slot.
unfoldable pub start_refusal : KnownNetwork → Option Error
start_refusal k =
    if k.active
    then some active_network
    else if not k.can_connect
    then some network_read_only
    else none

abbrev pub refuse : Service → Error → Service × Started
refuse s e = (s, refused e)

module _ (c : Capabilities) (s : Service) (id : Result String) (now : ℕ) where
  unfoldable pub start_connection : ConnectionRequest → Service × Started
  start_connection request =
      if not c.network
      then refuse s mode_unavailable_network
      else start s OperationKind.connect request.ssid (Action.connect request) id now

  unfoldable pub start_known_network : String → Result (List KnownNetwork) → Service × Started
  unfolding known_networks find_known start_refusal
  start_known_network uuid known =
      if not c.network then refuse s mode_unavailable_network else elim (known_networks c known) [
        | err e ↦ refuse s e
        | ok known ↦ elim (find_known uuid known) [
          | none ↦ refuse s known_network_not_found
          | some k ↦ elim (start_refusal k) [
            | some e ↦ refuse s e
            | none ↦ start s OperationKind.connect k.ssid (Action.connect_known uuid) id now
          ]
        ]
      ]

  unfoldable pub start_standalone : Service × Started
  start_standalone =
      if not c.standalone
      then refuse s mode_unavailable_standalone
      else start s OperationKind.standalone "" Action.standalone id now

unfoldable pub forget_known_network : Capabilities → Service → Service × Forget
forget_known_network c s =
    if not c.network then (s, Forget.refused mode_unavailable_network) else begin_forget s

pub record Bootstrap : Type 0 where
  pub capabilities : Capabilities
  pub current_mode : Mode
  pub operation : Option Operation

-- `mode` is the answer of the backend.
unfoldable pub bootstrap : Capabilities → Service → Result Mode → Result Bootstrap
bootstrap c s mode = elim mode [
  | err e ↦ err e
  | ok mode ↦ ok (record {
    capabilities = c;
    current_mode = mode;
    operation = latest_operation s.operations s.order;
  })
]
