-- ===== src/Core/Protocol/Emitters.antt =====
-- Which service's event the protocol polls.
use rp_t_minigames_server.Prelude.{
  ℕ, ◌≤◌, ◌≡◌, refl, sym, ◌∙◌, ap, subst, ◌⊎◌, ◌≢◌, inl, inr, Bool-cases, Option-cases, List, [],
  ◌∷◌, Option, none, some, arith, ltb,
}
use rp_t_minigames_server.Outcome.{ok}
use rp_t_minigames_server.Core.Protocol.{
  RunningService, latest_emitter, poll_emitter, poll_service_event,
}

-- No event of this identifier, if there is one, comes before `id`.
abbrev pub NotBefore : ℕ → Option ℕ → Type 0
NotBefore id none = Unit {0}
NotBefore id (some j) = id ≤ j

NotBefore-le : (i j : ℕ) (o : Option ℕ) → i ≤ j → NotBefore j o → NotBefore i o
NotBefore-le i j none l n = tt
NotBefore-le i j (some k) l n = omega (arith, l, n)

differ {ℓ} : {A : Type ℓ} {a : A} → some a ≢ none
differ h = cc

same {ℓ} : {A : Type ℓ} {a b : A} → some a ≡ some b → a ≡ b
same h = cc

module _ {W : Type 0} (w : W) where
  abbrev pub IsAmong : RunningService W → List (RunningService W) → Type 0
  IsAmong s [] = ⊥
  IsAmong s (t ∷ services) = (s ≡ t) ⊎ IsAmong s services

  abbrev pub NoneBefore : ℕ → List (RunningService W) → Type 0
  NoneBefore id [] = Unit {0}
  NoneBefore id (s ∷ services) = NotBefore id (s.next_event_id w) × NoneBefore id services

  abbrev pub NoEvent : List (RunningService W) → Type 0
  NoEvent [] = Unit {0}
  NoEvent (s ∷ services) = (s.next_event_id w ≡ none) × NoEvent services

  abbrev found_id : Option (RunningService W × ℕ) → Option ℕ
  found_id none = none
  found_id (some x) = some x.1

  -- What the loop finds, from what it has found before.
  abbrev Chosen :
      Option (RunningService W × ℕ)
      → List (RunningService W)
      → Option (RunningService W × ℕ)
      → Type 0
  Chosen found services none = (found ≡ none) × NoEvent services
  Chosen found services (some x) =
      ((found ≡ some x) ⊎ (IsAmong x.0 services × (x.0.next_event_id w ≡ some x.1)))
      × NoneBefore x.1 services
      × NotBefore x.1 (found_id found)

  later :
      (found : Option (RunningService W × ℕ)) (s : RunningService W)
      (services : List (RunningService W)) (x : RunningService W × ℕ)
      → (found ≡ some x) ⊎ (IsAmong x.0 services × (x.0.next_event_id w ≡ some x.1))
      → (found ≡ some x) ⊎ (IsAmong x.0 (s ∷ services) × (x.0.next_event_id w ≡ some x.1))
  later found s services x (inl f) = inl f
  later found s services x (inr (a, e)) = inr (inr a, e)

  -- The service that comes next has no event, or one not before what is found: it changes nothing.
  Chosen-skip :
      (found : Option (RunningService W × ℕ)) (s : RunningService W)
      (services : List (RunningService W)) (r : Option (RunningService W × ℕ))
      → ((s.next_event_id w ≡ none)
          ⊎ ((t : RunningService W) × (i j : ℕ) × (found ≡ some (t, i))
              × (s.next_event_id w ≡ some j)
              × (i ≤ j)))
      → Chosen found services r
      → Chosen found (s ∷ services) r
  Chosen-skip found s services none (inl silent) c = (c.0, (silent, c.1))
  Chosen-skip found s services none (inr (t, i, j, f, e, l)) c = absurd (differ (sym f ∙ c.0))
  Chosen-skip found s services (some x) (inl silent) c =
      (later found s services x c.0, (subst (NotBefore x.1) (sym silent) tt, c.1), c.2)
  Chosen-skip found s services (some x) (inr (t, i, j, f, e, l)) c =
      let before : x.1 ≤ i = subst (λ f. NotBefore x.1 (found_id f)) f c.2 in
      (
        later found s services x c.0,
        (subst (NotBefore x.1) (sym e) (omega (arith, before, l)), c.1),
        c.2,
      )

  Chosen-take :
      (found : Option (RunningService W × ℕ)) (s : RunningService W)
      (services : List (RunningService W)) (r : Option (RunningService W × ℕ)) (id : ℕ)
      → s.next_event_id w ≡ some id
      → NotBefore id (found_id found)
      → Chosen (some (s, id)) services r
      → Chosen found (s ∷ services) r
  Chosen-take found s services none id e n c = absurd (differ c.0)
  Chosen-take found s services (some x) id e n c =
      let l : x.1 ≤ id = c.2 in
      (
        inr (elim c.0 [
          | inl h ↦
              let p : (s, id) ≡ x = same h in
              (
                inl (sym (ap (λ (y : RunningService W × ℕ). y.0) p)),
                subst (λ (y : RunningService W × ℕ). y.0.next_event_id w ≡ some y.1) p e,
              )
          | inr (a, e') ↦ (inr a, e')
        ]),
        (subst (NotBefore x.1) (sym e) l, c.1),
        NotBefore-le x.1 id (found_id found) l n,
      )

  latest_emitter-Chosen :
      (found : Option (RunningService W × ℕ)) (services : List (RunningService W))
      → Chosen found services (latest_emitter w found services)
  unfolding latest_emitter
  latest_emitter-Chosen none [] = (refl, tt)
  latest_emitter-Chosen (some x) [] = (inl refl, tt, omega arith)
  latest_emitter-Chosen none (s ∷ services) = elim (Option-cases (s.next_event_id w)) [
    | inl silent ↦
        Chosen-skip none s services _ (inl silent) (rw silent (latest_emitter-Chosen none services))
    | inr (id, e) ↦
        Chosen-take none s services _ id e tt (rw e (latest_emitter-Chosen (some (s, id)) services))
  ]
  latest_emitter-Chosen (some (t, i)) (s ∷ services) = elim (Option-cases (s.next_event_id w)) [
    | inl silent ↦
        Chosen-skip (some (t, i)) s services _ (inl silent)
          (rw silent (latest_emitter-Chosen (some (t, i)) services))
    | inr (id, e) ↦ elim (Bool-cases (ltb id i)) [
      | inl b ↦
          Chosen-take (some (t, i)) s services _ id e (ground arith)
            (rw (e, b) (latest_emitter-Chosen (some (s, id)) services))
      | inr b ↦
          Chosen-skip (some (t, i)) s services _ (inr (t, i, id, refl, e, ground arith))
            (rw (e, b) (latest_emitter-Chosen (some (t, i)) services))
    ]
  ]

  -- What the protocol polls.
  abbrev pub PollsLowest : List (RunningService W) → Type 0
  PollsLowest services =
      (NoEvent services × (poll_service_event services w ≡ (ok none, w)))
      ⊎ ((s : RunningService W) × (id : ℕ) × IsAmong s services
          × (s.next_event_id w ≡ some id)
          × NoneBefore id services
          × (poll_service_event services w ≡ poll_emitter (some (s, id)) w))

  Chosen-PollsLowest :
      (services : List (RunningService W)) (r : Option (RunningService W × ℕ))
      → latest_emitter w none services ≡ r
      → Chosen none services r
      → PollsLowest services
  unfolding poll_service_event
  Chosen-PollsLowest services none e c = inl (c.1, rw e refl)
  Chosen-PollsLowest services (some x) e (inl f, n, _) = absurd (differ (sym f))
  Chosen-PollsLowest services (some x) e (inr (a, h), n, _) = inr (x.0, x.1, a, h, n, rw e refl)

  -- Either no service has an event, and the protocol polls none and changes nothing; or it polls a
  -- service that has one and whose next identifier is the lowest of all, and prefixes what that
  -- service's poll returns.
  pub poll_service_event-PollsLowest : (services : List (RunningService W)) → PollsLowest services
  poll_service_event-PollsLowest services =
      Chosen-PollsLowest services (latest_emitter w none services) refl
        (latest_emitter-Chosen none services)
