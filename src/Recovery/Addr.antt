-- ===== src/Recovery/Addr.antt =====
-- The part of Go's `net/netip` that internal/recovery/transitions.go uses: addresses by value. The
-- zero `Addr` is not valid; an IPv4 address is a number below 2 ^ 32, an IPv6 address a number and
-- a zone.
use onboardd.Prelude.{
  ℕ, ◌/◌, ◌^◌, String, Bool, true, false, ◌&&◌, Eq, ◌==◌, ◌!=◌, ℕ_eq, string_eq, eq_iff, ◌≡◌, ◌↔◌,
  arith,
}
use onboardd.GoError.{Result}

pub data Addr : Type 0 where
  invalid : Addr
  v4 : ℕ → Addr
  v6 : ℕ → String → Addr

abbrev addr_beq : Addr → Addr → Bool
addr_beq invalid invalid = true
addr_beq (v4 a) (v4 b) = a == b
addr_beq (v6 a s) (v6 b t) = a == b && s == t
addr_beq _ _ = false

pub addr_beq_iff : (a b : Addr) → (addr_beq a b ≡ true) ↔ (a ≡ b)
addr_beq_iff invalid invalid = ground arith
addr_beq_iff invalid (v4 b) = ground arith
addr_beq_iff invalid (v6 b t) = ground arith
addr_beq_iff (v4 a) invalid = ground arith
addr_beq_iff (v4 a) (v4 b) = ground arith
addr_beq_iff (v4 a) (v6 b t) = ground arith
addr_beq_iff (v6 a s) invalid = ground arith
addr_beq_iff (v6 a s) (v4 b) = ground arith
addr_beq_iff (v6 a s) (v6 b t) = ground (arith, eq_iff s t)

-- `ParseAddr` and `Addr.String`, which are not part of the repository.
pub record Netip : Type 0 where
  pub parse_addr : String → Result Addr
  pub address_text : Addr → String

instance abbrev pub addr_eq : Eq Addr
addr_eq = record { is_same = addr_beq; is_same_iff = addr_beq_iff }

-- `usableIPv4`: an IPv4 address is multicast if its first four bits are 1110.
unfoldable pub usable_ipv4 : Addr → Bool
usable_ipv4 invalid = false
usable_ipv4 (v4 a) = a != 0 && a / 2 ^ 28 != 14
usable_ipv4 (v6 a s) = false
