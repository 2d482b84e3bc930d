-- ===== src/Prelude/Sets.antt =====
-- A Go `map[K]struct{}` as a list: membership, insertion, deletion.
use mathlib.Core.Path.{◌≡◌}
use mathlib.Core.Bool.{Bool, false, ◌||◌}
use mathlib.Core.List.{List, [], ◌∷◌}
use native.Mathlib.Omega.{arith}
use onboardd.Prelude.Tests.{Eq, ◌==◌, if◌then◌else◌}

module _ {ℓ} {A : Type ℓ} ⦃e : Eq A⦄ where
  abbrev pub contains : A → List A → Bool
  contains a [] = false
  contains a (b ∷ l) = a == b || contains a l

  unfoldable pub insert : A → List A → List A
  insert a [] = a ∷ []
  insert a (b ∷ l) = if a == b then b ∷ l else b ∷ insert a l

  unfoldable pub delete : A → List A → List A
  delete a [] = []
  delete a (b ∷ l) = let rest = delete a l in if a == b then rest else b ∷ rest

  pub contains-insert : (a b : A) (l : List A) → contains a (insert b l) ≡ (a == b || contains a l)
  unfolding insert
  contains-insert a b [] = ground arith
  contains-insert a b (c ∷ l) =
      ground (arith, contains-insert a b l, e.is_same_iff b c, e.is_same_iff a c, e.is_same_iff a b)

  pub contains-delete :
      (a b : A) (l : List A) → contains a (delete b l) ≡ (if a == b then false else contains a l)
  unfolding delete
  contains-delete a b [] = ground arith
  contains-delete a b (c ∷ l) =
      ground (arith, contains-delete a b l, e.is_same_iff b c, e.is_same_iff a c, e.is_same_iff a b)
