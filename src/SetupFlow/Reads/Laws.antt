-- ===== src/SetupFlow/Reads/Laws.antt =====
-- What the list of visible networks of internal/setupflow/service.go promises.
use mathlib.Core.List.{Permᴰ}
use mathlib.Core.List.Permᴰ
use onboardd.Prelude.{
  ℕ, suc, ◌≤◌, String, Bool, true, ◌&&◌, Bool-cases, if_intro, inl, inr, List, [], ◌∷◌, All,
  All-map, ltb, ◌==◌, ℕ_eq, string_eq, eq_iff, if◌then◌else◌, refl, subst, ◌∙◌, ◌≡◌, arith,
}
use onboardd.Prelude.Sort.{insert_stable, slice_stable, All-insert_stable}
use onboardd.GoError.{ok, ok-injective}
use onboardd.SetupFlow.Types.{Network}
use onboardd.SetupFlow.Reads.{
  Capabilities, same_key, keep_strongest, strongest, network_less, networks,
}

module _ (ssid security : String) where
  abbrev pub has_key : Network → Bool
  has_key n = n.ssid == ssid && n.security == security

  -- The best strength of the key in a list, plus one; 0 where the key is missing.
  abbrev pub best : List Network → ℕ
  best [] = 0
  best (n ∷ ns) =
      let rest = best ns in if has_key n && ltb rest (suc n.strength) then suc n.strength else rest

  -- How often the key stands in a list.
  abbrev pub times : List Network → ℕ
  times [] = 0
  times (n ∷ ns) = if has_key n then suc (times ns) else times ns

  -- Two networks of one key have both the key in question, or neither has it.
  same_key-has_key : (n m : Network) → same_key n m ≡ true → (has_key n ≡ has_key m)
  same_key-has_key n m h = ground (arith, eq_iff n.ssid m.ssid, eq_iff n.security m.security)

  has_key-same_key : (n m : Network) → has_key n ≡ true → has_key m ≡ true → same_key n m ≡ true
  has_key-same_key n m p q = ground (
    arith,
    eq_iff n.ssid ssid,
    eq_iff m.ssid ssid,
    eq_iff n.ssid m.ssid,
    eq_iff n.security security,
    eq_iff m.security security,
    eq_iff n.security m.security,
  )

  keep_strongest-best :
      (n : Network) (ns : List Network) → best (keep_strongest n ns) ≡ best (n ∷ ns)
  unfolding keep_strongest
  keep_strongest-best n [] = refl
  keep_strongest-best n (m ∷ ms) = elim (Bool-cases (same_key n m)) [
    | inl same ↦ rw same (ground (arith, same_key-has_key n m same))
    | inr other ↦ rw other (ground (arith, has_key-same_key n m, keep_strongest-best n ms))
  ]

  keep_strongest-times :
      (n : Network) (ns : List Network)
      → times (keep_strongest n ns) ≡ (if has_key n && times ns == 0 then 1 else times ns)
  unfolding keep_strongest
  keep_strongest-times n [] = ground arith
  keep_strongest-times n (m ∷ ms) = elim (Bool-cases (same_key n m)) [
    | inl same ↦ rw same (ground (arith, same_key-has_key n m same))
    | inr other ↦ rw other (ground (arith, has_key-same_key n m, keep_strongest-times n ms))
  ]

  abbrev larger : ℕ → ℕ → ℕ
  larger a b = if ltb a b then b else a

  strongest-best :
      (unique ns : List Network)
      → best (strongest unique ns)
        ≡ (if ssid == "" then best unique else larger (best unique) (best ns))
  unfolding strongest
  strongest-best unique [] = ground arith
  strongest-best unique (n ∷ ns) = elim (Bool-cases (n.ssid == "")) [
    | inl unnamed ↦ rw unnamed (
        ground
          (arith, eq_iff n.ssid "", eq_iff n.ssid ssid, eq_iff ssid "", strongest-best unique ns))
    | inr named ↦ rw named (
        ground (
          arith,
          eq_iff n.ssid "",
          eq_iff n.ssid ssid,
          eq_iff ssid "",
          keep_strongest-best n unique,
          strongest-best (keep_strongest n unique) ns,
        ))
  ]

  strongest-times : (unique ns : List Network) → times unique ≤ 1 → times (strongest unique ns) ≤ 1
  unfolding strongest
  strongest-times unique [] h = h
  strongest-times unique (n ∷ ns) h = elim (Bool-cases (n.ssid == "")) [
    | inl unnamed ↦ rw unnamed (strongest-times unique ns h)
    | inr named ↦ rw named (
        strongest-times (keep_strongest n unique) ns
          (ground (arith, keep_strongest-times n unique)))
  ]

  -- The two do not depend on the order of a list.
  Permᴰ-best : {ms ns : List Network} → Permᴰ ms ns → best ms ≡ best ns
  Permᴰ-best Permᴰ.nil = refl
  Permᴰ-best (Permᴰ.cons e p) = ground (arith, e, Permᴰ-best p)
  Permᴰ-best (Permᴰ.swap {a = a} {b = b} e f) = ground (arith, e, f)
  Permᴰ-best (Permᴰ.trans p q) = Permᴰ-best p ∙ Permᴰ-best q

  Permᴰ-times : {ms ns : List Network} → Permᴰ ms ns → times ms ≡ times ns
  Permᴰ-times Permᴰ.nil = refl
  Permᴰ-times (Permᴰ.cons e p) = ground (arith, e, Permᴰ-times p)
  Permᴰ-times (Permᴰ.swap e f) = ground (arith, e, f)
  Permᴰ-times (Permᴰ.trans p q) = Permᴰ-times p ∙ Permᴰ-times q

Permᴰ-insert_stable :
    {A : Type 0} (less : A → A → Bool) (x : A) (xs : List A)
    → Permᴰ (insert_stable less x xs) (x ∷ xs)
unfolding insert_stable
Permᴰ-insert_stable less x [] = Permᴰ.refl (x ∷ [])
Permᴰ-insert_stable less x (y ∷ ys) =
    if_intro (λ (l : List _). Permᴰ l (x ∷ y ∷ ys)) (less y x)
      (λ _. Permᴰ.trans (Permᴰ.cons refl (Permᴰ-insert_stable less x ys)) (Permᴰ.swap refl refl))
      (λ _. Permᴰ.refl (x ∷ y ∷ ys))

Permᴰ-slice_stable :
    {A : Type 0} (less : A → A → Bool) (xs : List A) → Permᴰ (slice_stable less xs) xs
unfolding slice_stable
Permᴰ-slice_stable less [] = Permᴰ.nil
Permᴰ-slice_stable less (x ∷ xs) =
    Permᴰ.trans (Permᴰ-insert_stable less x (slice_stable less xs))
      (Permᴰ.cons refl (Permᴰ-slice_stable less xs))

-- No network stands before a stronger one.
abbrev pub Descending : List Network → Type 0
Descending [] = Unit
Descending (n ∷ ns) = All (λ (m : Network). m.strength ≤ n.strength) ns × Descending ns

insert_stable-Descending :
    (n : Network) (ns : List Network) → Descending ns → Descending (insert_stable network_less n ns)
unfolding insert_stable
insert_stable-Descending n [] h = (tt, tt)
insert_stable-Descending n (m ∷ ms) (below, h) =
    if_intro Descending (network_less m n)
      (λ less. (
        All-insert_stable network_less (λ (k : Network). k.strength ≤ m.strength) n ms
            (ground arith) below,
        insert_stable-Descending n ms h,
      ))
      (λ other. (
        (
          ground arith,
          All-map (λ (k : Network). k.strength ≤ m.strength)
              (λ (k : Network). k.strength ≤ n.strength) ms (λ k le. ground arith) below,
        ),
        (below, h),
      ))

slice_stable-Descending : (ns : List Network) → Descending (slice_stable network_less ns)
unfolding slice_stable
slice_stable-Descending [] = tt
slice_stable-Descending (n ∷ ns) =
    insert_stable-Descending n (slice_stable network_less ns) (slice_stable-Descending ns)

-- The list of visible networks, in whatever order its map is read: the strongest come first, a name
-- with a security stands at most once, with the best strength that the scan found for it, and it
-- stands there if the scan found it and the name is not empty.
pub networks-Strongest :
    (c : Capabilities) (shuffle : List Network → List Network) (found shown : List Network)
    (ssid security : String)
    → ((ns : List Network) → Permᴰ (shuffle ns) ns)
    → networks c shuffle (ok found) ≡ ok shown
    → Descending shown
      × (times ssid security shown ≤ 1)
      × (best ssid security shown ≡ (if ssid == "" then 0 else best ssid security found))
unfolding networks
networks-Strongest c shuffle found shown ssid security visits e =
    let unique = strongest [] found in
    let sorted = slice_stable network_less (shuffle unique) in
    let perm : Permᴰ sorted unique =
      Permᴰ.trans (Permᴰ-slice_stable network_less (shuffle unique)) (visits unique) in
    let same : sorted ≡ shown = elim (Bool-cases c.network) [
      | inl enabled ↦ ok-injective (ground arith)
      | inr disabled ↦ ground arith
    ] in
    subst
      (λ (ns : List Network).
        Descending ns
        × (times ssid security ns ≤ 1)
        × (best ssid security ns ≡ (if ssid == "" then 0 else best ssid security found)))
      same
      (
        slice_stable-Descending (shuffle unique),
        ground (
          arith,
          Permᴰ-times ssid security perm,
          strongest-times ssid security [] found (ground arith),
        ),
        ground (arith, Permᴰ-best ssid security perm, strongest-best ssid security [] found),
      )
