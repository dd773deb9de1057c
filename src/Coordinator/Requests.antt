-- ===== src/Coordinator/Requests.antt =====
-- What an answer over the network tells of the service: `_request` of
-- queueserver_service/manager/config_service.py.
use ophyd_service.Prelude.{
  ℕ, zero, suc, ◌≡◌, true, false, some, arith, Bool-cases, Option-cases, inl, inr,
}
use ophyd_service.LockService.{Service, Moment, Response}
use ophyd_service.Coordinator.{Answer, ok}
use ophyd_service.Coordinator.Network.{
  Delivery, delivered, undelivered, unanswered, broken, is_retryable, is_expected, read_body,
  answer_of, attempt, request, World, Network, call,
}

module _ {S A : Type 0} (handle : ℕ → S → S × Response A) (I : S → Type 0)
    (keep : (i : ℕ) (s : S) → I s → I (handle i s).0) where
  attempt-keeps :
      (i : ℕ) (d : Delivery) (again : S → S × Answer A) (s : S)
      → ((t : S) → I t → I (again t).0)
      → I s
      → I (attempt handle i d again s).0
  unfolding attempt
  attempt-keeps i undelivered again s rest h = rest s h
  attempt-keeps i unanswered again s rest h = rest (handle i s).0 (keep i s h)
  attempt-keeps i (broken false) again s rest h = h
  attempt-keeps i (broken true) again s rest h = keep i s h
  attempt-keeps i delivered again s rest h =
      elim (Bool-cases (is_retryable (handle i s).1.status_code)) [
        | inl retry ↦ rw retry (rest (handle i s).0 (keep i s h))
        | inr final ↦ rw final (keep i s h)
      ]

  -- What every handling keeps, a request keeps, whatever becomes of it.
  pub request-keeps :
      (network : ℕ → Delivery) (i n : ℕ) (s : S) → I s → I (request handle network i n s).0
  unfolding request
  request-keeps network i zero s h = h
  request-keeps network i (suc n) s h =
      attempt-keeps i (network i) (λ t. request handle network (suc i) n t) s
        (λ t g. request-keeps network (suc i) n t g) h

  -- A success is what the service answered to the last attempt.
  abbrev pub Answered : S → A → Type 0
  Answered t a = (j : ℕ) × (s : S) × I s × ((handle j s).0 ≡ t) × (answer_of (handle j s).1 ≡ ok a)

  attempt-Answered :
      (i : ℕ) (d : Delivery) (again : S → S × Answer A) (s t : S) (a : A)
      → ((u : S) → I u → again u ≡ (t, ok a) → Answered t a)
      → I s
      → attempt handle i d again s ≡ (t, ok a)
      → Answered t a
  unfolding attempt
  attempt-Answered i undelivered again s t a rest h e = rest s h e
  attempt-Answered i unanswered again s t a rest h e = rest (handle i s).0 (keep i s h) e
  attempt-Answered i (broken false) again s t a rest h e = absurd (ground arith)
  attempt-Answered i (broken true) again s t a rest h e = absurd (ground arith)
  attempt-Answered i delivered again s t a rest h e =
      elim (Bool-cases (is_retryable (handle i s).1.status_code)) [
        | inl retry ↦ rest (handle i s).0 (keep i s h) (ground arith)
        | inr final ↦ (i, s, h, ground arith, ground arith)
      ]

  pub request-Answered :
      (network : ℕ → Delivery) (i n : ℕ) (s t : S) (a : A)
      → I s
      → request handle network i n s ≡ (t, ok a)
      → Answered t a
  unfolding request
  request-Answered network i zero s t a h e = absurd (ground arith)
  request-Answered network i (suc n) s t a h e =
      attempt-Answered i (network i) (λ u. request handle network (suc i) n u) s t a
        (λ u g f. request-Answered network (suc i) n u t a g f) h e

-- A success has the expected status and a body.
pub answer_of-ok :
    {A : Type 0} (r : Response A) (a : A)
    → answer_of r ≡ ok a
    → (is_expected r.status_code ≡ true) × (r.body ≡ some a)
unfolding answer_of read_body
answer_of-ok r a e = elim (Bool-cases (is_expected r.status_code)) [
  | inr bad ↦ absurd (ground arith)
  | inl good ↦ elim (Option-cases r.body) [
    | inl empty ↦ absurd (ground arith)
    | inr (b, body) ↦ (good, ground arith)
  ]
]

module _ {A : Type 0} (n : Network) (route : Moment → Service → Service × Response A)
    (I : Service → Type 0) (keep : (at : Moment) (s : Service) → I s → I (route at s).0) where
  pub call-keeps : (w : World) → I w.service → I (call n route w).0.service
  unfolding call
  call-keeps w h =
      request-keeps (λ i. route (n.moment w.calls i)) I (λ i s g. keep (n.moment w.calls i) s g)
        (n.deliver w.calls) 0 n.max_attempts w.service h

  pub call-Answered :
      (w w' : World) (a : A)
      → I w.service
      → call n route w ≡ (w', ok a)
      → (at : Moment) × (s : Service) × I s
        × ((route at s).0 ≡ w'.service)
        × (answer_of (route at s).1 ≡ ok a)
  unfolding call
  call-Answered w w' a h e =
      let (j, s, g, state, answer) =
        request-Answered (λ i. route (n.moment w.calls i)) I
          (λ i t g. keep (n.moment w.calls i) t g) (n.deliver w.calls) 0 n.max_attempts w.service
          w'.service a h (ground arith) in
      (n.moment w.calls j, s, g, state, answer)
