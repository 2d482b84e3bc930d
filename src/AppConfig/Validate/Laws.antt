-- ===== src/AppConfig/Validate/Laws.antt =====
-- What a configuration promises that `Validate` and `Resolve` accept.
use native.Mathlib.Nat.{one-le-pow}
use onboardd.Prelude.{
  ℕ, ◌+◌, ◌-◌, ◌/◌, ◌%◌, ◌^◌, ◌<◌, ◌≤◌, String, Bool, true, Option-cases, inl, inr, Option, none,
  some, ℕ_eq, string_eq, refl, ap, ◌∙◌, ◌≡◌, ◌≢◌, ◌↔◌, arith,
}
use onboardd.GoError.{Error, Result, err, Result-cases, wrap}
use onboardd.NetworkManager.Types.{Activation}
use onboardd.NetworkManager.Settings.{Std, build_access_point_settings}
use onboardd.Recovery.Addr.{Netip, Addr, v4, v6, invalid}
use onboardd.Recovery.Client.{Client, Run}
use onboardd.Recovery.Transition.{run_transition}
use onboardd.Recovery.Attempts.{
  standalone_plan, StandaloneTransition, Outcome, returns, panics, attempt_standalone,
  standalone_candidate, standalone_check, checked, validate_transition_options,
}
use onboardd.AppConfig.Types.{Config}
use onboardd.AppConfig.Validate.{
  Texts, is_host, validate_standalone_address, validate_standalone, validate_modes,
  validate_network, validate,
}

-- The next address is in the same block of `k` exactly if the address is not its last one.
next_in_block : (a k : ℕ) → 0 < k → ((a + 1) / k ≡ a / k) ↔ (a % k + 1 < k)
next_in_block a k h = grind arith

is_host_iff :
    (a bits : ℕ)
    → (is_host a bits ≡ true)
      ↔ ((0 < a % 2 ^ (32 - bits)) × (a % 2 ^ (32 - bits) + 1 < 2 ^ (32 - bits)) × (a + 1 < 2 ^ 32))
is_host_iff a bits = ground (arith, one-le-pow (32 - bits) 2, next_in_block a (2 ^ (32 - bits)))

-- The prefix that an accepted address of standalone mode has: an IPv4 address in a block of at
-- least four, neither its first nor its last one.
abbrev pub Usable : Texts → String → Type 0
Usable texts address =
    (bits : ℕ) × (a : ℕ) × (valid : Bool) × (texts.parse_prefix address
      ≡ some (record { addr = v4 a; bits = bits; is_valid = valid }))
    × (bits ≤ 30)
    × (0 < a % 2 ^ (32 - bits))
    × (a % 2 ^ (32 - bits) + 1 < 2 ^ (32 - bits))

prefix-Usable :
    (texts : Texts) (address : String) (addr : Addr) (bits : ℕ) (valid : Bool)
    → texts.parse_prefix address ≡ some (record { addr = addr; bits = bits; is_valid = valid })
    → validate_standalone_address texts address ≡ none
    → Usable texts address
unfolding validate_standalone_address
prefix-Usable texts address (v4 a) bits valid e h = (
  bits,
  a,
  valid,
  e,
  ground arith,
  ground (arith, is_host_iff a bits),
  ground (arith, is_host_iff a bits),
)
prefix-Usable texts address (v6 a zone) bits valid e h = absurd (ground arith)
prefix-Usable texts address invalid bits valid e h = absurd (ground arith)

address-Usable :
    (texts : Texts) (address : String)
    → validate_standalone_address texts address ≡ none
    → Usable texts address
unfolding validate_standalone_address
address-Usable texts address h = elim (Option-cases (texts.parse_prefix address)) [
  | inl e ↦ absurd (ground arith)
  | inr (p, e) ↦ prefix-Usable texts address p.addr p.bits p.is_valid e h
]

valid_address :
    (texts : Texts) (c : Config)
    → validate texts c ≡ none
    → c.network.standalone_enabled ≡ true
    → validate_standalone_address texts c.network.standalone.address ≡ none
unfolding validate validate_network validate_modes validate_standalone
valid_address texts c h on = ground arith

-- `ParsePrefix`, as the transitions use it: the address of the prefix.
abbrev pub prefix_addr : Texts → String → Option Addr
prefix_addr texts address = elim (texts.parse_prefix address) [ none ↦ none | some p ↦ some p.addr ]

module _ {W : Type 0} (client : Client W) (netip : Netip) (std : Std) (texts : Texts)
    (polls : ℕ) where
  abbrev Attempt : Type 0
  Attempt = Outcome (Result Activation × Run W)

  checked_ne :
      (e : Option Error) (x : Attempt) (r : Run W)
      → x ≢ panics
      → checked client netip std (prefix_addr texts) polls e x (λ e. returns (err e, r)) ≢ panics
  checked_ne none x r h = h
  checked_ne (some e) x r h = ground arith

  addressed_ne :
      (o : StandaloneTransition) (r : Run W) (a : Addr)
      → prefix_addr texts o.candidate.address ≡ some a
      → attempt_standalone client netip std (prefix_addr texts) polls o r ≢ panics
  unfolding attempt_standalone
  addressed_ne o r a e =
      elim (Result-cases (build_access_point_settings std (standalone_candidate o))) [
        | inl (built, q) ↦
            rw (q, e)
              (checked_ne
                (validate_transition_options
                  (standalone_check client netip std (prefix_addr texts) polls o))
                (returns (run_transition client netip polls (standalone_plan o a) r)) r
                (ground arith))
        | inr (f, q) ↦ rw q (
            checked_ne
              (validate_transition_options
                (standalone_check client netip std (prefix_addr texts) polls o))
              (returns (err (wrap "validate standalone profile" f), r)) r (ground arith))
      ]

  -- A configuration that is accepted with standalone mode enabled has a usable host address for its
  -- access point, and an attempt at standalone mode at that address does not panic.
  pub validate-Usable :
      (c : Config) (o : StandaloneTransition) (r : Run W)
      → validate texts c ≡ none
      → c.network.standalone_enabled ≡ true
      → o.candidate.address ≡ c.network.standalone.address
      → Usable texts o.candidate.address
        × (attempt_standalone client netip std (prefix_addr texts) polls o r ≢ panics)
  validate-Usable c o r valid on same =
      let h : validate_standalone_address texts o.candidate.address ≡ none =
        ap (validate_standalone_address texts) same ∙ valid_address texts c valid on in
      let u = address-Usable texts o.candidate.address h in
      (u, addressed_ne o r (v4 u.1) (rw (u.3, prefix_addr) refl))
