-- ===== src/WebUi/Api/Release.antt =====
-- What becomes of an operation that a request starts: internal/webui/api.go.
use onboardd.Prelude.{
  [], ◌∷◌, ◌++◌, eq_iff, ℕ, String, true, false, Option, none, some, inl, inr, Option-cases,
  Bool-cases, refl, ◌∙◌, ◌≡◌, ◌⊎◌, arith, if_intro, string_eq,
}
use onboardd.GoError.{Result, ok, Result-cases}
use onboardd.NetworkManager.Settings.{Std}
use onboardd.SetupFlow.Types.{Operation, OperationKind}
use onboardd.SetupFlow.Slot.{
  Service, Action, Started, Forget, start, begin_forget, begin_operation, cancel_pending_operation,
  is_pending, is_running, new_service,
}
use onboardd.SetupFlow.Slot.Reach.{Reach}
use onboardd.SetupFlow.Reads.{Capabilities}
use onboardd.WebUi.Guard.{Api, Url}
use onboardd.WebUi.Exchange.{Delivery, accept_operation, start_operation}
use onboardd.WebUi.Api.{
  Request, World, Reply, Served, acceptance, begin_started, finish_forget, serve_http,
}
use onboardd.SetupFlow.Slot.{
  active_operation, reserve, store, is_some, pending_operation, unavailable,
}
use onboardd.SetupFlow.Slot.Trim.{trim-KeptAt}
use onboardd.SetupFlow.Slot.Invariant.{Inv}
use onboardd.SetupFlow.Slot.Reach.{run-Inv, Reach-Inv}
use onboardd.WebUi.Api.Cases.{serve_http_holds}
use onboardd.WebUi.Api.Laws.{start-Reach}

-- The answer of a start method to a service without a pending operation: an operation that is pending
-- now is the one that was accepted, and no other one runs than before.
abbrev OnlyAccepted : String → Started → Type 0
OnlyAccepted j (Started.accepted o) = o.id ≡ j
OnlyAccepted j _ = ⊥

module _ (s : Service) (kind : OperationKind) (network : String) (action : Action) (now : ℕ)
    (j : String) (calm : is_pending (s.operations j) ≡ false) where
  abbrev Answer : Service × Started → Type 0
  Answer x =
      (is_pending (x.0.operations j) ≡ true → OnlyAccepted j x.1)
      × (is_running (x.0.operations j) ≡ true → is_running (s.operations j) ≡ true)

  reserve-Answer :
      (id : String)
      → Answer (
        reserve s kind network action id now,
        Started.accepted (pending_operation id kind network now),
      )
  unfolding reserve
  reserve-Answer id =
      let kept =
        trim-KeptAt
          (record s {
            operations = store s.operations id (some (pending_operation id kind network now));
            actions = store s.actions id (some action);
          })
          (s.order ++ id ∷ []) j in
      (λ p. ground (arith, eq_iff j id, kept), λ p. ground (arith, eq_iff j id, kept))

  start-Answer : (id : Result String) → Answer (start s kind network action id now)
  unfolding start
  start-Answer id =
      if_intro Answer (unavailable s) (λ _. (λ p. ground arith, λ p. p))
        (λ _.
          if_intro Answer s.is_forgetting (λ _. (λ p. ground arith, λ p. p))
            (λ _. elim (Option-cases (active_operation s.operations s.order)) [
              | inr (o, busy) ↦ rw busy ((λ p. ground arith, λ p. p))
              | inl free ↦ elim (Result-cases id) [
                | inr (e, i) ↦ rw (free, i) ((λ p. ground arith, λ p. p))
                | inl (i, eq) ↦ rw (free, eq) (reserve-Answer i)
              ]
            ]))

-- The operation is not pending, and it runs only if it ran before, or the reply names it as accepted.
pub record Settled (before : Service) (j : String) (after : Served) : Type 0 where
  pub settled : is_pending (after.0.operations j) ≡ false
  pub told :
      is_running (after.0.operations j) ≡ true
      → (is_running (before.operations j) ≡ true)
        ⊎ ((o : Operation) × (o.id ≡ j) × (after.2 ≡ Reply.accepted o))

module _ (t : Service) (inv : Inv t) (o : Operation) (now : ℕ) (j : String)
    (only : is_pending (t.operations j) ≡ true → o.id ≡ j) where
  queued : is_some (t.actions j) ≡ is_pending (t.operations j)
  queued = (inv.fits j).queued

  cancelled : is_pending ((cancel_pending_operation t o.id now).0.operations j) ≡ false
  unfolding cancel_pending_operation
  cancelled = ground (arith, eq_iff j o.id, queued, only)

  cancelled-running :
      is_running ((cancel_pending_operation t o.id now).0.operations j) ≡ true
      → is_running (t.operations j) ≡ true
  unfolding cancel_pending_operation
  cancelled-running p = ground (arith, eq_iff j o.id)

  begun : is_pending ((begin_operation t o.id now).0.operations j) ≡ false
  unfolding begin_operation cancel_pending_operation
  begun = ground (arith, eq_iff j o.id, queued, only)

  begun-running :
      is_running ((begin_operation t o.id now).0.operations j) ≡ true
      → (is_running (t.operations j) ≡ true) ⊎ (o.id ≡ j)
  unfolding begin_operation cancel_pending_operation
  begun-running p = ground (arith, eq_iff j o.id)

  start_operation-Settled :
      (d : Delivery) → Settled t j (start_operation t o d now, [], acceptance o d)
  unfolding start_operation accept_operation acceptance
  start_operation-Settled Delivery.delivered = record {
    settled = begun;
    told = λ p. elim (begun-running p) [ inl ran ↦ inl ran | inr same ↦ inr (o, same, refl) ];
  }
  start_operation-Settled Delivery.short_write = record {
    settled = cancelled;
    told = λ p. inl (cancelled-running p);
  }
  start_operation-Settled (Delivery.encode_failed e) = record {
    settled = cancelled;
    told = λ p. inl (cancelled-running p);
  }
  start_operation-Settled (Delivery.write_failed e) = record {
    settled = cancelled;
    told = λ p. inl (cancelled-running p);
  }
  start_operation-Settled (Delivery.flush_failed e) = record {
    settled = cancelled;
    told = λ p. inl (cancelled-running p);
  }

module _ (std : Std) (parse_url : String → Option Url) (digest : String → String) (api : Api)
    (c : Capabilities) (w : World) (s : Service) (r : Request) (j : String) where
  begin_started-Settled :
      (x : Service × Started)
      → Inv x.0
      → (is_pending (x.0.operations j) ≡ true → OnlyAccepted j x.1)
      → (is_running (x.0.operations j) ≡ true → is_running (s.operations j) ≡ true)
      → Settled s j (begin_started std parse_url digest api c w s r x)
  unfolding begin_started
  begin_started-Settled (t, Started.refused e) inv only ran = record {
    settled = ground arith;
    told = λ p. inl (ran p);
  }
  begin_started-Settled (t, Started.conflict o) inv only ran = record {
    settled = ground arith;
    told = λ p. inl (ran p);
  }
  begin_started-Settled (t, Started.accepted o) inv only ran =
      let after = start_operation-Settled t inv o w.now j only w.delivery in
      record {
        settled = after.settled;
        told = λ p. elim (after.told p) [ inl was ↦ inl (ran was) | inr d ↦ inr d ];
      }

  finish_forget-same :
      (path : String) (x : Service × Forget)
      → (finish_forget std parse_url digest api c w s r path x).0.operations ≡ x.0.operations
  unfolding finish_forget
  finish_forget-same path (t, Forget.refused e) = refl
  finish_forget-same path (t, Forget.conflict o) = refl
  finish_forget-same path (t, Forget.forgetting) = refl

  begin_forget-same : (begin_forget s).0.operations ≡ s.operations
  unfolding begin_forget
  begin_forget-same =
      if_intro (λ (x : Service × Forget). x.0.operations ≡ s.operations) (unavailable s) (λ _. refl)
        (λ _. elim (Option-cases (active_operation s.operations s.order)) [
          | inr (o, busy) ↦ rw busy refl
          | inl free ↦ elim (Bool-cases s.is_forgetting) [
            | inl e ↦ rw (free, e) refl
            | inr e ↦ rw (free, e) refl
          ]
        ])

  forget-Settled :
      (path : String)
      → is_pending (s.operations j) ≡ false
      → Settled s j (finish_forget std parse_url digest api c w s r path (begin_forget s))
  forget-Settled path calm =
      let same = finish_forget-same path (begin_forget s) ∙ begin_forget-same in
      record { settled = rw same calm; told = rw same (λ p. inl p) }

  -- In a service without a pending operation, with a new operation id that is none that is stored, no
  -- request leaves an operation pending; and an operation that runs after the request ran before, or
  -- the client has received the reply that names it as accepted.
  pub serve_http-Settled :
      Reach new_service s
      → ((i : String) → w.new_id ≡ ok i → s.operations i ≡ none)
      → is_pending (s.operations j) ≡ false
      → Settled s j (serve_http std parse_url digest api c w s r)
  serve_http-Settled reach fresh calm =
      serve_http_holds std parse_url digest api c w s r (Settled s j)
        (λ reply. record { settled = calm; told = λ p. inl p })
        (λ kind network action.
          let answer = start-Answer s kind network action w.now j calm w.new_id in
          begin_started-Settled (start s kind network action w.new_id w.now)
            (Reach-Inv
              (start-Reach std parse_url digest api c w s r kind network action w.new_id w.now
                fresh)
              (run-Inv reach))
            answer.0 answer.1)
        (λ path. forget-Settled path calm)
