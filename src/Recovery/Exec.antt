-- ===== src/Recovery/Exec.antt =====
-- Steps that call the client and may fail: Go's `if err := …; err != nil { return … }`.
use onboardd.Prelude.{String, Option, none, some}
use onboardd.GoError.{Error, wrap, Result, ok, err}
use onboardd.Recovery.Client.{Run}

abbrev pub Exec : Type 0 → Type 0 → Type 0
Exec W A = Run W → Result A × Run W

module _ {W A B : Type 0} where
  abbrev pub continue : Result A × Run W → (A → Exec W B) → Result B × Run W
  continue (ok a, r) f = f a r
  continue (err e, r) f = (err e, r)

  infixl 5 ◌>>=◌ ◌>>◌
  abbrev pub ◌>>=◌ : Exec W A → (A → Exec W B) → Exec W B
  ◌>>=◌ m f r = continue (m r) f

  abbrev pub ◌>>◌ : Exec W A → Exec W B → Exec W B
  ◌>>◌ m k r = continue (m r) (λ _. k)

abbrev pub to_result : String → Option Error → Result (Unit {0})
to_result text none = ok tt
to_result text (some e) = err (wrap text e)

abbrev pub wrap_result : {A : Type 0} → String → Result A → Result A
wrap_result text (ok a) = ok a
wrap_result text (err e) = err (wrap text e)

-- `fmt.Errorf("text: %w", err)` around the error of a call.
abbrev pub try_call : {W : Type 0} → String → (Run W → Option Error × Run W) → Exec W (Unit {0})
try_call text m r = let (e, r') = m r in (to_result text e, r')

abbrev pub try_read : {W A : Type 0} → String → (Run W → Result A × Run W) → Exec W A
try_read text m r = let (a, r') = m r in (wrap_result text a, r')

abbrev pub check : {W : Type 0} → Option Error → Exec W (Unit {0})
check none r = (ok tt, r)
check (some e) r = (err e, r)
