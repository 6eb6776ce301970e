-- ===== src/Core/Timer.antt =====
-- rpt-core/src/Timer.cpp and ServiceContext.cpp with their headers. A routine is a value of `C`;
-- `run` says what calling it does to the state around the timer. No routine of the program calls the
-- timer that runs it.
pub mod Life
use rp_t_minigames_server.Prelude.{ℕ, ◌+◌, ◌%◌, ◌^◌, Bool, List, [], ◌∷◌, ◌++◌, Text, text, ◌==◌}
use rp_t_minigames_server.Outcome.{
  ok, bad_timer_state, Action, gets, modify, guard, zoom, ◌>>=◌, ◌>>◌,
}

-- The shared counters of event and timer identifiers.
pub record ServiceContext : Type 0 where
  pub events_count : ℕ
  pub timers_count : ℕ

abbrev pub new_context : ServiceContext
new_context = record { events_count = 0; timers_count = 0 }

-- Both return the counter's old value, `count++`.
unfoldable pub new_event_pushed : ServiceContext → ℕ × ServiceContext
new_event_pushed c = (c.events_count, record c { events_count = (c.events_count + 1) % 2 ^ 64 })

unfoldable pub new_timer_created : ServiceContext → ℕ × ServiceContext
new_timer_created c = (c.timers_count, record c { timers_count = (c.timers_count + 1) % 2 ^ 64 })

pub data TimerState : Type 0 where
  disabled ready pending triggered : TimerState

abbrev pub state_number : TimerState → ℕ
state_number disabled = 0
state_number ready = 1
state_number pending = 2
state_number triggered = 3

abbrev pub same_state : TimerState → TimerState → Bool
same_state a b = state_number a == state_number b

pub record Timer (C : Type 0) : Type 0 where
  pub token : ℕ
  pub countdown_ms : ℕ
  pub current_state : TimerState
  pub clear_callbacks : List C
  pub trigger_callbacks : List C

module _ {C : Type 0} where
  unfoldable pub new_timer : ServiceContext → ℕ → Timer C × ServiceContext
  unfolding new_timer_created
  new_timer provider countdown_ms =
      let (token, provider') = new_timer_created provider in
      (
        record {
          token = token;
          countdown_ms = countdown_ms;
          current_state = disabled;
          clear_callbacks = [];
          trigger_callbacks = [];
        },
        provider',
      )

  abbrev pub is_free : Timer C → Bool
  is_free t = same_state t.current_state disabled

  abbrev pub is_waiting_countdown : Timer C → Bool
  is_waiting_countdown t = same_state t.current_state ready

  abbrev pub is_pending : Timer C → Bool
  is_pending t = same_state t.current_state pending

  abbrev pub has_triggered : Timer C → Bool
  has_triggered t = same_state t.current_state triggered

  abbrev pub on_next_clear : C → Timer C → Timer C
  on_next_clear callback t = record t { clear_callbacks = t.clear_callbacks ++ callback ∷ [] }

  abbrev pub on_next_trigger : C → Timer C → Timer C
  on_next_trigger callback t = record t { trigger_callbacks = t.trigger_callbacks ++ callback ∷ [] }

  -- `checkStateForOperation`, with the state that `getExpectedState` gives for the operation.
  unfoldable pub check_state : Text → TimerState → Action (Timer C) (Unit {0})
  check_state operation_name expected_state t =
      guard (same_state expected_state t.current_state)
        (bad_timer_state operation_name (state_number expected_state)
          (state_number t.current_state))
        t

  unfoldable pub request_countdown : Action (Timer C) (Unit {0})
  unfolding check_state
  request_countdown = do
    check_state (text "requestCountdown") disabled
    modify (λ t. record t { current_state = ready })

  unfoldable pub begin_countdown : Action (Timer C) ℕ
  unfolding check_state
  begin_countdown = do
    check_state (text "beginCountdown") ready
    modify (λ t. record t { current_state = pending })
    gets (λ t. t.countdown_ms)

  -- The routines in their order; one that throws stops the loop.
  unfoldable pub run_all : {S : Type 0} → (C → Action S (Unit {0})) → List C → Action S (Unit {0})
  run_all run [] s = (ok tt, s)
  run_all run (c ∷ cs) s = (run c >> run_all run cs) s

  module _ {S : Type 0} (run : C → Action S (Unit {0})) where
    abbrev pub on_timer : {A : Type 0} → Action (Timer C) A → Action (Timer C × S) A
    on_timer = zoom (λ x. x.0) (λ t x. (t, x.1))

    abbrev pub on_rest : {A : Type 0} → Action S A → Action (Timer C × S) A
    on_rest = zoom (λ x. x.1) (λ s x. (x.0, s))

    unfoldable pub clear : Action (Timer C × S) (Unit {0})
    unfolding run_all
    clear = do
      on_timer (modify (λ t. record t { current_state = disabled }))
      callbacks ← gets (λ x. x.0.clear_callbacks)
      on_rest (run_all run callbacks)
      on_timer (modify (λ t. record t { clear_callbacks = []; trigger_callbacks = [] }))

    unfoldable pub trigger : Action (Timer C × S) (Unit {0})
    unfolding check_state run_all
    trigger = do
      on_timer (check_state (text "trigger") pending)
      on_timer (modify (λ t. record t { current_state = triggered }))
      callbacks ← gets (λ x. x.0.trigger_callbacks)
      on_rest (run_all run callbacks)
      on_timer (modify (λ t. record t { trigger_callbacks = [] }))
