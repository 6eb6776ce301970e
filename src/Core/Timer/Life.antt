-- ===== src/Core/Timer/Life.antt =====
-- The states of a timer, and the order in which its routines run.
use rp_t_minigames_server.Prelude.{◌≡◌, refl, sym, true, List, [], ◌∷◌}
use rp_t_minigames_server.Outcome.{ok, Action}
use rp_t_minigames_server.Outcome.Ends.{Ends, returns, Ends-guard}
use rp_t_minigames_server.Core.Timer.{
  TimerState, disabled, ready, pending, triggered, same_state, Timer, check_state,
  request_countdown, begin_countdown, run_all, clear, trigger,
}

same_state→≡ : (a b : TimerState) → same_state a b ≡ true → a ≡ b
same_state→≡ disabled disabled h = refl
same_state→≡ disabled ready h = cc
same_state→≡ disabled pending h = cc
same_state→≡ disabled triggered h = cc
same_state→≡ ready disabled h = cc
same_state→≡ ready ready h = refl
same_state→≡ ready pending h = cc
same_state→≡ ready triggered h = cc
same_state→≡ pending disabled h = cc
same_state→≡ pending ready h = cc
same_state→≡ pending pending h = refl
same_state→≡ pending triggered h = cc
same_state→≡ triggered disabled h = cc
same_state→≡ triggered ready h = cc
same_state→≡ triggered pending h = cc
same_state→≡ triggered triggered h = refl

-- Routines that never throw: `step` is what one does.
module _ {C S : Type 0} (run : C → Action S (Unit {0})) (step : C → S → S)
    (runs : (c : C) (s : S) → run c s ≡ (ok tt, step c s)) where
  -- The routines one after the other.
  unfoldable pub all_steps : List C → S → S
  all_steps [] s = s
  all_steps (c ∷ cs) s = all_steps cs (step c s)

  run_all-steps : (cs : List C) (s : S) → run_all run cs s ≡ (ok tt, all_steps cs s)
  unfolding run_all all_steps
  run_all-steps [] s = refl
  run_all-steps (c ∷ cs) s = rw (runs c s, run_all-steps cs (step c s)) refl

  -- How a call on a timer, with what surrounds it, ends.
  abbrev pub LivesOn : Timer C → S → Type 0
  LivesOn t s =
      Ends t (λ _ t'. (t.current_state ≡ disabled) × (t' ≡ record t { current_state = ready }))
        (request_countdown t)
      × Ends t
          (λ ms t'.
            (t.current_state ≡ ready)
            × (ms ≡ t.countdown_ms)
            × (t' ≡ record t { current_state = pending }))
          (begin_countdown t)
      × Ends (t, s)
          (λ _ x.
            (t.current_state ≡ pending)
            × (x ≡ (
              record t { current_state = triggered; trigger_callbacks = [] },
              all_steps t.trigger_callbacks s,
            )))
          (trigger run (t, s))
      × (clear run (t, s) ≡ (
        ok tt,
        (
          record t { current_state = disabled; clear_callbacks = []; trigger_callbacks = [] },
          all_steps t.clear_callbacks s,
        ),
      ))

  -- With routines that never throw: a countdown is requested only from the disabled state, begins only
  -- from the ready one and triggers only from the pending one, else the call throws and leaves timer
  -- and surroundings as they were. The trigger runs its routines in their order and forgets them;
  -- clearing returns from every state, runs the routines of the clearing in their order, and leaves a
  -- disabled timer without routines.
  pub timer_life : (t : Timer C) (s : S) → LivesOn t s
  unfolding request_countdown begin_countdown trigger clear check_state
  timer_life t s = (
    Ends-guard (same_state disabled t.current_state) _ _ t λ h.
        returns tt (record t { current_state = ready }) refl
          (sym (same_state→≡ disabled t.current_state h), refl),
    Ends-guard (same_state ready t.current_state) _ _ t λ h.
        returns t.countdown_ms (record t { current_state = pending }) refl
          (sym (same_state→≡ ready t.current_state h), refl, refl),
    Ends-guard (same_state pending t.current_state) _ _ (t, s)
        λ h.
          returns tt
            (
              record t { current_state = triggered; trigger_callbacks = [] },
              all_steps t.trigger_callbacks s,
            )
            (rw (run_all-steps t.trigger_callbacks s) refl)
            (sym (same_state→≡ pending t.current_state h), refl),
    rw (run_all-steps t.clear_callbacks s) refl,
  )
