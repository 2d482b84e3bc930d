-- ===== src/Prelude/Tests.antt =====
-- Boolean tests, the conditional, and `==` for every type that the program compares.
use Prim.Native.Nat.{ℕ, compare, Ordering}
use Prim.Native.String.{String, compare as str_compare}
use mathlib.Core.Path.{◌≡◌, refl}
use mathlib.Core.Logic.{◌↔◌, ◌⊎◌, inl, inr}
use mathlib.Core.Bool.{Bool, true, false, not}
use mathlib.Core.Option.{Option, none, some}
use native.Mathlib.Omega.{arith}
use text.Mathlib.Text.{◌==◌ as str_eq}
use text.Mathlib.TextEquality.{eq_iff}

abbrev pub ltb : ℕ → ℕ → Bool
ltb a b = elim (compare a b) [ Ordering.lt ↦ true | _ ↦ false ]

abbrev pub leb : ℕ → ℕ → Bool
leb a b = elim (compare a b) [ Ordering.gt ↦ false | _ ↦ true ]

abbrev pub nat_eq : ℕ → ℕ → Bool
nat_eq a b = elim (compare a b) [ Ordering.eq ↦ true | _ ↦ false ]

infix 1 if◌then◌else◌
abbrev pub if◌then◌else◌ {ℓ} : {A : Type ℓ} → Bool → A → A → A
if true then x else y = x
if false then x else y = y

pub Bool-cases : (b : Bool) → (b ≡ true) ⊎ (b ≡ false)
Bool-cases true = inl refl
Bool-cases false = inr refl

-- A property of a conditional, from that of its branches.
pub if_intro {ℓ κ} :
    {A : Type ℓ} (P : A → Type κ) (b : Bool) {x y : A}
    → (b ≡ true → P x)
    → (b ≡ false → P y)
    → P (if b then x else y)
if_intro P true h k = h refl
if_intro P false h k = k refl

pub Option-cases {ℓ} : {A : Type ℓ} (o : Option A) → (o ≡ none) ⊎ ((a : A) × (o ≡ some a))
Option-cases none = inl refl
Option-cases (some a) = inr (a, refl)

pub nat_eq_iff : (a b : ℕ) → (nat_eq a b ≡ true) ↔ (a ≡ b)
nat_eq_iff a b = ground arith

-- Types whose values Go compares with `==`. The test is decided by the path type.
pub record Eq {ℓ} (T : Type ℓ) : Type ℓ where
  pub is_same : T → T → Bool
  pub is_same_iff : (left right : T) → (is_same left right ≡ true) ↔ (left ≡ right)

-- The tests of two values, for a type that has such a test.
infix 50 ◌!=◌ ◌==◌
abbrev pub ◌!=◌ {ℓ} : {T : Type ℓ} ⦃c : Eq T⦄ → T → T → Bool
◌!=◌ ⦃c⦄ left right = if c.is_same left right then false else true

abbrev pub ◌==◌ {ℓ} : {T : Type ℓ} ⦃c : Eq T⦄ → T → T → Bool
◌==◌ ⦃c⦄ left right = c.is_same left right

instance abbrev pub string_eq : Eq String
string_eq = record { is_same_iff = eq_iff; is_same = str_eq }

instance abbrev pub ℕ_eq : Eq ℕ
ℕ_eq = record { is_same_iff = nat_eq_iff; is_same = nat_eq }

-- `!=` of two Booleans.
abbrev pub bool_ne : Bool → Bool → Bool
bool_ne true b = not b
bool_ne false b = b

-- The order of Go's strings, byte by byte.
abbrev pub text_less : String → String → Bool
text_less a b = elim (str_compare a b) [
  | Ordering.lt ↦ true
  | Ordering.eq ↦ false
  | Ordering.gt ↦ false
]
