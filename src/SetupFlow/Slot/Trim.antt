-- ===== src/SetupFlow/Slot/Trim.antt =====
-- What the trimming of the history keeps.
use onboardd.Prelude.{
  ◌≤◌, String, true, false, ◌||◌, if_intro, inl, none, List, [], ◌∷◌, ◌++◌, length, length-append,
  contains, leb, string_eq, eq_iff, refl, ◌≡◌, ◌⊎◌, arith,
}
use onboardd.SetupFlow.Slot.{
  Service, store, is_active, is_some, operation_history_limit, trim_history,
}

-- No id stands twice.
abbrev pub Distinct : List String → Type 0
Distinct [] = Unit
Distinct (id ∷ ids) = (contains id ids ≡ false) × Distinct ids

-- An operation is kept with its action, or it was over and both are gone.
abbrev pub KeptAt : Service → Service → String → Type 0
KeptAt s s' id =
    ((s'.operations id ≡ s.operations id) × (s'.actions id ≡ s.actions id))
    ⊎ ((is_active (s.operations id) ≡ false) × (s'.operations id ≡ none) × (s'.actions id ≡ none))

-- The rest of the state.
abbrev pub SameFlags : Service → Service → Type 0
SameFlags s s' =
    (s'.is_forgetting ≡ s.is_forgetting)
    × (s'.is_shutting_down ≡ s.is_shutting_down)
    × (s'.cancelled ≡ s.cancelled)
    × (s'.workers ≡ s.workers)

abbrev dropped : Service → String → Service
dropped s oldest = record s {
  operations = store s.operations oldest none;
  actions = store s.actions oldest none;
}

pub trim-KeptAt :
    (s : Service) (order : List String) (id : String) → KeptAt s (trim_history s order) id
unfolding trim_history
trim-KeptAt s [] id = inl (refl, refl)
trim-KeptAt s (oldest ∷ rest) id =
    if_intro (λ (s' : Service). KeptAt s s' id)
      (leb (length (oldest ∷ rest)) operation_history_limit || is_active (s.operations oldest))
      (λ _. inl (refl, refl))
      (λ over. ground (arith, eq_iff id oldest, trim-KeptAt (dropped s oldest) rest id))

pub trim-SameFlags : (s : Service) (order : List String) → SameFlags s (trim_history s order)
unfolding trim_history
trim-SameFlags s [] = (refl, refl, refl, refl)
trim-SameFlags s (oldest ∷ rest) =
    if_intro (SameFlags s)
      (leb (length (oldest ∷ rest)) operation_history_limit || is_active (s.operations oldest))
      (λ _. (refl, refl, refl, refl)) (λ over. trim-SameFlags (dropped s oldest) rest)

-- The operations that are kept are the ones in the order.
pub trim_listed :
    (s : Service) (order : List String) (id : String)
    → Distinct order
    → ((j : String) → contains j order ≡ is_some (s.operations j))
    → contains id (trim_history s order).order ≡ is_some ((trim_history s order).operations id)
unfolding trim_history
trim_listed s [] id _ listed = listed id
trim_listed s (oldest ∷ rest) id (fresh, distinct) listed =
    if_intro (λ (s' : Service). contains id s'.order ≡ is_some (s'.operations id))
      (leb (length (oldest ∷ rest)) operation_history_limit || is_active (s.operations oldest))
      (λ _. listed id)
      (λ over.
        trim_listed (dropped s oldest) rest id distinct
          (λ j. ground (arith, eq_iff j oldest, listed j)))

pub trim-Distinct :
    (s : Service) (order : List String) → Distinct order → Distinct (trim_history s order).order
unfolding trim_history
trim-Distinct s [] h = h
trim-Distinct s (oldest ∷ rest) (fresh, h) =
    if_intro (λ (s' : Service). Distinct s'.order)
      (leb (length (oldest ∷ rest)) operation_history_limit || is_active (s.operations oldest))
      (λ _. (fresh, h)) (λ over. trim-Distinct (dropped s oldest) rest h)

trim_short :
    (s : Service) (order : List String)
    → length order ≤ operation_history_limit
    → (trim_history s order).order ≡ order
unfolding trim_history
trim_short s [] h = refl
trim_short s (oldest ∷ rest) h = ground arith

-- One new operation after at most ten that are over.
pub trim_bounded :
    (s : Service) (order : List String) (id : String)
    → length order ≤ operation_history_limit
    → ((j : String) → contains j order ≡ true → is_active (s.operations j) ≡ false)
    → length (trim_history s (order ++ id ∷ [])).order ≤ operation_history_limit
unfolding trim_history
trim_bounded s [] id short over = omega arith
trim_bounded s (oldest ∷ rest) id short over = ground (
  arith,
  length-append rest (id ∷ []),
  eq_iff oldest oldest,
  over oldest,
  trim_short (dropped s oldest) (rest ++ id ∷ []),
)
