-- ===== src/SetupFlow/Backend/Known.antt =====
-- What the list of known networks of internal/setupflow/network.go promises the browser.
use mathlib.Core.List.{Memᴰ}
use onboardd.Prelude.{
  String, true, Bool-cases, if_intro, inl, inr, none, some, List, [], ◌∷◌, ◌==◌, string_eq, eq_iff,
  ap, ◌≡◌, ◌↔◌, arith,
}
use onboardd.NetworkManager.Types.{role_eq, Status, Profile}
use onboardd.SetupFlow.Types.{KnownNetwork}
use onboardd.SetupFlow.Reads.{start_refusal}
use onboardd.SetupFlow.Backend.{
  is_listed, known_network, known_networks_of, find_profile, forget_refusal, connect_refusal,
}

-- NetworkManager gives each profile a UUID of its own.
abbrev pub DistinctUuids : List Profile → Type 0
DistinctUuids [] = Unit
DistinctUuids (p ∷ ps) = (find_profile p.uuid ps ≡ none) × DistinctUuids ps

module _ (interface : String) (s : Status) where
  -- One entry answers as the profile behind it.
  abbrev pub Answers : KnownNetwork → Profile → Type 0
  Answers k p =
      (start_refusal k ≡ connect_refusal interface s p)
      × ((k.can_forget ≡ true) ↔ (forget_refusal interface s p ≡ none))

  known_network-Answers :
      (p : Profile) → is_listed interface p ≡ true → Answers (known_network interface s p) p
  unfolding is_listed start_refusal connect_refusal forget_refusal
  known_network-Answers p h = ground arith

  -- The profile that the server finds for an entry, and that it answers as the entry does.
  abbrev pub Backs : List Profile → KnownNetwork → Profile → Type 0
  Backs ps k p = (find_profile k.uuid ps ≡ some p) × Answers k p

  later-Backs :
      (p : Profile) (ps : List Profile) (k : KnownNetwork)
      → find_profile p.uuid ps ≡ none
      → ((q : Profile) × Backs ps k q)
      → (q : Profile) × Backs (p ∷ ps) k q
  unfolding find_profile
  later-Backs p ps k fresh (q, h) = (
    q,
    (
      elim (Bool-cases (p.uuid == k.uuid)) [
        | inl same ↦ absurd (
            ground
              (arith, ap (λ (u : String). find_profile u ps) ((eq_iff p.uuid k.uuid).0 same), h.0))
        | inr other ↦ rw other h.0
      ],
      h.1,
    ),
  )

  -- Where no two profiles have the same UUID, an entry of the list of known networks and the checks
  -- of the server agree: the server finds one profile by the UUID of the entry, the entry is refused
  -- at the start exactly as the server refuses to connect to that profile, with the same error, and
  -- the entry can be forgotten exactly if the server does not refuse to forget the profile.
  pub known-Backs :
      (ps : List Profile) (k : KnownNetwork)
      → DistinctUuids ps
      → Memᴰ k (known_networks_of interface s ps)
      → (p : Profile) × Backs ps k p
  unfolding known_networks_of find_profile
  known-Backs [] k distinct m = elim m [ ]
  known-Backs (p ∷ ps) k (fresh, distinct) m =
      if_intro (λ (ks : List KnownNetwork). Memᴰ k ks → (q : Profile) × Backs (p ∷ ps) k q)
        (is_listed interface p)
        (λ listed m. elim m [
          | Memᴰ.head e ↦ (p, ground (arith, eq_iff p.uuid p.uuid, known_network-Answers p listed))
          | Memᴰ.tail m ↦ later-Backs p ps k fresh (known-Backs ps k distinct m)
        ])
        (λ hidden m. later-Backs p ps k fresh (known-Backs ps k distinct m)) m
