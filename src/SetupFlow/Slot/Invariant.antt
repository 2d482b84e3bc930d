-- ===== src/SetupFlow/Slot/Invariant.antt =====
-- The invariant of the service, and that every step keeps it.
use onboardd.Prelude.{
  ℕ, ◌≤◌, String, Bool, true, false, not, ◌||◌, Option-cases, if_intro, inl, inr, Option, none,
  some, List, [], ◌∷◌, ◌++◌, length, contains, contains-delete, ◌==◌, string_eq, eq_iff, refl, ◌≡◌,
  ◌≢◌, ◌⊎◌, arith,
}
use onboardd.GoError.{Error, ok, err}
use onboardd.SetupFlow.Types.{OperationKind, pending, running, succeeded, failed, Operation}
use onboardd.SetupFlow.Slot.{
  Action, Service, new_service, store, is_active, is_pending, is_running, is_some, unavailable,
  active_operation, operation_history_limit, pending_operation, reserve, start, is_cancellable,
  cancel_pending_operation, begin_operation, finish, shutdown, begin_forget, end_forget, Started,
  Forget,
}
use onboardd.SetupFlow.Slot.Trim.{
  Distinct, trim-KeptAt, trim-SameFlags, trim_listed, trim-Distinct, trim_bounded,
}

-- Whether an operation has ended, and whether it has failed, shows in its other fields.
abbrev pub Consistent : Option Operation → Type 0
Consistent none = Unit
Consistent (some o) = elim o.state [
  | pending ↦ (o.finished_at ≡ none) × (o.failure ≡ none)
  | running ↦ (o.finished_at ≡ none) × (o.failure ≡ none)
  | succeeded ↦ (o.finished_at ≢ none) × (o.failure ≡ none)
  | failed ↦ (o.finished_at ≢ none) × (o.failure ≢ none)
]

-- What holds of each id.
pub record Fits (s : Service) (id : String) : Type 0 where
  pub listed : contains id s.order ≡ is_some (s.operations id)
  pub queued : is_some (s.actions id) ≡ is_pending (s.operations id)
  pub worker : contains id s.workers ≡ is_running (s.operations id)
  pub consistent : Consistent (s.operations id)
  pub quiet : (s.is_forgetting ≡ false) ⊎ (is_active (s.operations id) ≡ false)
  pub drained : (s.is_shutting_down ≡ false) ⊎ (is_pending (s.operations id) ≡ false)

pub record Inv (s : Service) : Type 0 where
  pub fits : (id : String) → Fits s id
  pub single :
      (i j : String) → is_active (s.operations i) ≡ true → is_active (s.operations j) ≡ true → i ≡ j
  pub distinct : Distinct s.order
  pub bounded : length s.order ≤ operation_history_limit
  pub stopping : (s.is_shutting_down ≡ false) ⊎ (s.cancelled ≡ true)

pub new_service-Inv : Inv new_service
new_service-Inv = record {
  fits = λ id. ground arith;
  single = λ i j p q. ground arith;
  distinct = tt;
  bounded = omega arith;
  stopping = inl refl;
}

none_active_in :
    (operations : String → Option Operation) (order : List String) (id : String)
    → active_operation operations order ≡ none
    → contains id order ≡ true
    → is_active (operations id) ≡ false
unfolding active_operation
none_active_in operations [] id h m = ground arith
none_active_in operations (first ∷ later) id h m =
    ground (arith, eq_iff id first, none_active_in operations later id)

contains-append_one :
    (j id : String) (ids : List String) → contains j (ids ++ id ∷ []) ≡ (contains j ids || j == id)
contains-append_one j id [] = ground arith
contains-append_one j id (k ∷ ids) = ground (arith, contains-append_one j id ids)

append-Distinct :
    (id : String) (ids : List String)
    → contains id ids ≡ false
    → Distinct ids
    → Distinct (ids ++ id ∷ [])
append-Distinct id [] fresh h = (refl, tt)
append-Distinct id (k ∷ ids) fresh (h, hs) =
    ground (arith, contains-append_one k id ids, eq_iff k id, eq_iff id k, append-Distinct id ids)

module _ (s : Service) (inv : Inv s) where
  pub none_active :
      (id : String)
      → active_operation s.operations s.order ≡ none
      → is_active (s.operations id) ≡ false
  none_active id h = ground (arith, (inv.fits id).listed, none_active_in s.operations s.order id h)

  module _ (kind : OperationKind) (network : String) (action : Action) (id : String) (now : ℕ)
      (fresh : s.operations id ≡ none) (calm : s.is_forgetting ≡ false)
      (open_ : s.is_shutting_down ≡ false)
      (idle : (j : String) → is_active (s.operations j) ≡ false) where
    abbrev stored : Service
    stored = record s {
      operations = store s.operations id (some (pending_operation id kind network now));
      actions = store s.actions id (some action);
    }

    abbrev ids : List String
    ids = s.order ++ id ∷ []

    ids-Distinct : Distinct ids
    ids-Distinct = append-Distinct id s.order (ground (arith, (inv.fits id).listed)) inv.distinct

    stored_listed : (j : String) → contains j ids ≡ is_some (stored.operations j)
    stored_listed j =
        ground (arith, contains-append_one j id s.order, (inv.fits j).listed, eq_iff j id)

    reserve-Fits : (j : String) → Fits (reserve s kind network action id now) j
    unfolding reserve
    reserve-Fits j =
        let fits = inv.fits j in
        let kept = trim-KeptAt stored ids j in
        let flags = trim-SameFlags stored ids in
        record {
          listed = trim_listed stored ids j ids-Distinct stored_listed;
          queued = ground (arith, eq_iff j id, kept, fits.queued, idle j);
          worker = ground (arith, eq_iff j id, kept, flags, fits.worker, idle j, fresh);
          consistent = ground (arith, eq_iff j id, kept, fits.consistent);
          quiet = ground (arith, flags);
          drained = ground (arith, flags);
        }

    reserve-Inv : Inv (reserve s kind network action id now)
    unfolding reserve
    reserve-Inv = record {
      fits = λ j. reserve-Fits j;
      single = λ i j p q. ground (
        arith,
        eq_iff i id,
        eq_iff j id,
        idle i,
        idle j,
        trim-KeptAt stored ids i,
        trim-KeptAt stored ids j,
      );
      distinct = trim-Distinct stored ids ids-Distinct;
      bounded =
          trim_bounded stored s.order id inv.bounded
            (λ j m. ground (arith, eq_iff j id, idle j, (inv.fits id).listed));
      stopping = ground (arith, trim-SameFlags stored ids);
    }

  pub start-Inv :
      (kind : OperationKind) (network : String) (action : Action) (id : String) (now : ℕ)
      → s.operations id ≡ none
      → Inv (start s kind network action (ok id) now).0
  unfolding start
  start-Inv kind network action id now fresh =
      if_intro (λ (x : Service × Started). Inv x.0) (unavailable s) (λ _. inv)
        (λ available.
          if_intro (λ (x : Service × Started). Inv x.0) s.is_forgetting (λ _. inv)
            (λ calm. elim (Option-cases (active_operation s.operations s.order)) [
              | inl free ↦ rw free (
                  reserve-Inv kind network action id now fresh calm (ground arith)
                    (λ j. none_active j free))
              | inr (o, busy) ↦ rw busy inv
            ]))

  pub cancel-Inv : (id : String) (now : ℕ) → Inv (cancel_pending_operation s id now).0
  unfolding cancel_pending_operation
  cancel-Inv id now =
      if_intro (λ (x : Service × Bool). Inv x.0) (is_cancellable s id)
        (λ queued. record {
          fits = λ j. ground (arith, eq_iff j id, inv.fits j);
          single = λ i j p q. ground (arith, eq_iff i id, eq_iff j id, inv.single i j);
          distinct = inv.distinct;
          bounded = inv.bounded;
          stopping = inv.stopping;
        })
        (λ _. inv)

  pub begin-Inv : (id : String) (now : ℕ) → Inv (begin_operation s id now).0
  unfolding begin_operation
  begin-Inv id now =
      if_intro (λ (x : Service × Bool). Inv x.0) (not (is_cancellable s id)) (λ _. inv)
        (λ queued.
          if_intro (λ (x : Service × Bool). Inv x.0) (unavailable s) (λ _. cancel-Inv id now)
            (λ available. record {
              fits = λ j. ground (arith, eq_iff j id, inv.fits j);
              single = λ i j p q. ground (arith, eq_iff i id, eq_iff j id, inv.single i j);
              distinct = inv.distinct;
              bounded = inv.bounded;
              stopping = inv.stopping;
            }))

  pub finish-Inv :
      (id : String) (result : Option Error) (now : ℕ)
      → contains id s.workers ≡ true
      → Inv (finish s id result now)
  unfolding finish
  finish-Inv id result now worker = record {
    fits =
        λ j. ground (arith, eq_iff j id, inv.fits j, inv.fits id, contains-delete j id s.workers);
    single = λ i j p q. ground (arith, eq_iff i id, eq_iff j id, inv.single i j);
    distinct = inv.distinct;
    bounded = inv.bounded;
    stopping = inv.stopping;
  }

  pub shutdown-Inv : (now : ℕ) → Inv (shutdown s now)
  unfolding shutdown
  shutdown-Inv now =
      if_intro Inv s.is_shutting_down (λ _. inv)
        (λ _. record {
          fits = λ j. ground (arith, inv.fits j);
          single = λ i j p q. ground (arith, inv.single i j);
          distinct = inv.distinct;
          bounded = inv.bounded;
          stopping = inr refl;
        })

  pub begin_forget-Inv : Inv (begin_forget s).0
  unfolding begin_forget
  begin_forget-Inv =
      if_intro (λ (x : Service × Forget). Inv x.0) (unavailable s) (λ _. inv)
        (λ _. elim (Option-cases (active_operation s.operations s.order)) [
          | inl free ↦ rw free (
              if_intro (λ (x : Service × Forget). Inv x.0) s.is_forgetting (λ _. inv)
                (λ _. record {
                  fits = λ j. ground (arith, inv.fits j, none_active j free);
                  single = inv.single;
                  distinct = inv.distinct;
                  bounded = inv.bounded;
                  stopping = inv.stopping;
                }))
          | inr (o, busy) ↦ rw busy inv
        ])

  pub end_forget-Inv : Inv (end_forget s)
  end_forget-Inv = record {
    fits = λ j. ground (arith, inv.fits j);
    single = inv.single;
    distinct = inv.distinct;
    bounded = inv.bounded;
    stopping = inv.stopping;
  }

  pub parent_done-Inv : Inv (record s { cancelled = true })
  parent_done-Inv = record {
    fits = λ j. ground (arith, inv.fits j);
    single = inv.single;
    distinct = inv.distinct;
    bounded = inv.bounded;
    stopping = inr refl;
  }

  pub start_failed-Inv :
      (kind : OperationKind) (network : String) (action : Action) (e : Error) (now : ℕ)
      → Inv (start s kind network action (err e) now).0
  unfolding start
  start_failed-Inv kind network action e now =
      if_intro (λ (x : Service × Started). Inv x.0) (unavailable s) (λ _. inv)
        (λ available.
          if_intro (λ (x : Service × Started). Inv x.0) s.is_forgetting (λ _. inv)
            (λ calm. elim (Option-cases (active_operation s.operations s.order)) [
              | inl free ↦ rw free inv
              | inr (o, busy) ↦ rw busy inv
            ]))
