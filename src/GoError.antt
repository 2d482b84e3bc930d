-- ===== src/GoError.antt =====
-- Go's `error` values as the program builds and inspects them: `errors.New`, `fmt.Errorf` with one
-- `%w`, `errors.Join`, and the error types that `errors.As` and `errors.Is` look for
-- (internal/appliance/controller.go, internal/setupflow/types.go).
-- The texts of errors are those of the source, less the numbers and quoted values in some of them,
-- which nothing reads.
use onboardd.Prelude.{String, Bool, true, false, ◌||◌, Option, none, some, ◌≡◌, refl, ◌⊎◌, inl, inr}

-- `public` is `*setupflow.PublicError` with its code and message.
pub data Error : Type 0 where
  new : String → Error
  wrap : String → Error → Error
  join : Error → Error → Error
  terminal : Error → Error
  canceled deadline_exceeded : Error
  public : String → String → Error

-- A call that returns `(A, error)`.
pub data Result {ℓ} (A : Type ℓ) : Type ℓ where
  ok : A → Result A
  err : Error → Result A

pub Result-cases {ℓ} :
    {A : Type ℓ} (r : Result A) → ((a : A) × (r ≡ ok a)) ⊎ ((e : Error) × (r ≡ err e))
Result-cases (ok a) = inl (a, refl)
Result-cases (err e) = inr (e, refl)

pub ok-injective {ℓ} : {A : Type ℓ} {a b : A} → ok a ≡ ok b → a ≡ b
ok-injective e = cc

-- `errors.Join` of two errors that may be nil.
abbrev pub join_some : Option Error → Option Error → Option Error
join_some none e = e
join_some (some e) none = some e
join_some (some e) (some f) = some (join e f)

-- `fmt.Errorf("text: %w", err)` on an error that may be nil, where the code guards it by `err != nil`.
abbrev pub wrap_some : String → Option Error → Option Error
wrap_some text none = none
wrap_some text (some e) = some (wrap text e)

-- `isTerminal`: `errors.As` walks the chain, and both branches of a join.
unfoldable pub is_terminal : Error → Bool
is_terminal (new _) = false
is_terminal (wrap _ e) = is_terminal e
is_terminal (join e f) = is_terminal e || is_terminal f
is_terminal (terminal _) = true
is_terminal canceled = false
is_terminal deadline_exceeded = false
is_terminal (public _ _) = false
