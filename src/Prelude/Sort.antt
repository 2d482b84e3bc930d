-- ===== src/Prelude/Sort.antt =====
-- `sort.SliceStable` as a stable insertion sort. For a strict weak order `less` the stable result is
-- one list, so the algorithm does not matter.
use mathlib.Core.Path.{◌≡◌, refl}
use mathlib.Core.Bool.{Bool, false}
use mathlib.Core.List.{List, [], ◌∷◌}
use native.Mathlib.Omega.{arith}
use onboardd.Prelude.Tests.{if◌then◌else◌}
use onboardd.Prelude.Lists.{All, any}

module _ {ℓ} {A : Type ℓ} (less : A → A → Bool) where
  unfoldable pub insert_stable : A → List A → List A
  insert_stable x [] = x ∷ []
  insert_stable x (y ∷ ys) = if less y x then y ∷ insert_stable x ys else x ∷ y ∷ ys

  unfoldable pub slice_stable : List A → List A
  unfolding insert_stable
  slice_stable [] = []
  slice_stable (x ∷ xs) = insert_stable x (slice_stable xs)

  -- No element stands before one that is less: what a sort promises.
  abbrev pub Ordered : List A → Type 0
  Ordered [] = Unit
  Ordered (x ∷ xs) = All (λ y. less y x ≡ false) xs × Ordered xs

  pub any-insert_stable :
      (p : A → Bool) (x : A) (xs : List A) → any p (insert_stable x xs) ≡ any p (x ∷ xs)
  unfolding insert_stable
  any-insert_stable p x [] = refl
  any-insert_stable p x (y ∷ ys) = ground (arith, any-insert_stable p x ys)

  pub any-slice_stable : (p : A → Bool) (xs : List A) → any p (slice_stable xs) ≡ any p xs
  unfolding slice_stable
  any-slice_stable p [] = refl
  any-slice_stable p (x ∷ xs) =
      ground (arith, any-insert_stable p x (slice_stable xs), any-slice_stable p xs)

  module _ {κ} (P : A → Type κ) where
    pub All-insert_stable : (x : A) (xs : List A) → P x → All P xs → All P (insert_stable x xs)
    unfolding insert_stable
    All-insert_stable x [] p h = (p, tt)
    All-insert_stable x (y ∷ ys) p (q, h) = ground (arith, All-insert_stable x ys p h)

    pub All-slice_stable : (xs : List A) → All P xs → All P (slice_stable xs)
    unfolding slice_stable
    All-slice_stable [] h = tt
    All-slice_stable (x ∷ xs) (p, h) =
        All-insert_stable x (slice_stable xs) p (All-slice_stable xs h)
