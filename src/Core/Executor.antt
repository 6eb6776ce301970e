-- ===== src/Core/Executor.antt =====
-- rpt-core/src/Executor.cpp and include/RpT-Core/Executor.hpp, with InputOutputInterface. What the
-- executor calls, the I/O interface and the timers that its services watch, is a record of operations
-- on the state `W` that all of them share. A timer is named by its token.
pub mod Events
use rp_t_minigames_server.Prelude.{
  ℕ, zero, suc, ◌+◌, Bool, true, false, not, List, [], ◌∷◌, ◌++◌, Option, none, some, Text, map,
  if◌then◌else◌,
}
use rp_t_minigames_server.Outcome.{
  Result, ok, err, bad_service_request, bad_executor_mode, assertion_failed, unfinished, Action,
  pure, throw, gets, modify, guard, ◌>>=◌, ◌>>◌,
}
use rp_t_minigames_server.Messages.{is_exception}
use rp_t_minigames_server.Utils.HandlingResult.{HandlingResult, refused}
use rp_t_minigames_server.Core.Service.{ServiceEvent, is_watched, forget}
use rp_t_minigames_server.Core.Protocol.{
  RunningService, register, handle_service_request, poll_service_event,
}
use rp_t_minigames_server.Core.InputEvent.{
  InputEvent, none_event, service_request_event, timer_event, joined_event, left_event,
}

-- `InputOutputInterface`.
pub record InputOutput (W : Type 0) : Type 0 where
  pub closed : W → Bool
  pub wait_for_input : Action W InputEvent
  pub reply_to : ℕ → Text → Action W (Unit {0})
  pub output_event : ServiceEvent → Action W (Unit {0})
  pub begin_timer : ℕ → Action W (Unit {0})
  pub close_pipeline_with : ℕ → HandlingResult → Action W (Unit {0})

-- A service as `run` takes it. `events_left` is the number of events in its queue.
pub record ExecutedService (W : Type 0) : Type 0 where
  pub running : RunningService W
  pub get_waiting_timers : W → List ℕ
  pub events_left : W → ℕ

-- `pending_timers_`, and the calls on a timer through its reference. `erase_on_clear` is `onNextClear`
-- with the lambda that erases the timer from `pending_timers_`.
pub record PendingTimers (W : Type 0) : Type 0 where
  pub tokens : W → List ℕ
  pub set_tokens : List ℕ → W → W
  pub trigger : ℕ → Action W (Unit {0})
  pub erase_on_clear : ℕ → Action W (Unit {0})

-- The user's handlers of the five events, and the loop's routine.
pub record Handlers (W : Type 0) : Type 0 where
  pub user_none_handler : ℕ → Action W (Unit {0})
  pub user_service_request_handler : ℕ → Text → Action W (Unit {0})
  pub user_timer_handler : ℕ → ℕ → Action W (Unit {0})
  pub user_joined_handler : ℕ → Text → Action W (Unit {0})
  pub user_left_handler : ℕ → HandlingResult → Action W (Unit {0})
  pub loop_routine : Action W (Unit {0})

pub record Executor (W : Type 0) : Type 0 where
  pub configured : Bool
  pub handlers : Handlers W

module _ {W : Type 0} where
  -- By default the handlers and the routine do nothing.
  abbrev pub default_handlers : Handlers W
  default_handlers = record {
    user_none_handler = λ a. pure tt;
    user_service_request_handler = λ a request. pure tt;
    user_timer_handler = λ a token. pure tt;
    user_joined_handler = λ a name. pure tt;
    user_left_handler = λ a reason. pure tt;
    loop_routine = pure tt;
  }

  abbrev pub new_executor : Executor W
  new_executor = record { configured = false; handlers = default_handlers }

  -- `handle` and `make`: what they set, before the first run only.
  unfoldable pub configure : (Handlers W → Handlers W) → Action (Executor W) (Unit {0})
  configure updated = do
    running ← gets (λ x. x.configured)
    guard (not running) bad_executor_mode
    modify (λ x. record x { handlers = updated x.handlers })

  abbrev pub handle_joined : (ℕ → Text → Action W (Unit {0})) → Action (Executor W) (Unit {0})
  handle_joined event_handler = configure λ h. record h { user_joined_handler = event_handler }

  abbrev pub handle_left :
      (ℕ → HandlingResult → Action W (Unit {0})) → Action (Executor W) (Unit {0})
  handle_left event_handler = configure λ h. record h { user_left_handler = event_handler }

  abbrev pub make : Action W (Unit {0}) → Action (Executor W) (Unit {0})
  make loop_routine = configure λ h. record h { loop_routine = loop_routine }

module _ {W : Type 0} where
  unfoldable pub total_left : List (ExecutedService W) → W → ℕ
  total_left [] w = 0
  total_left (s ∷ services) w = s.events_left w + total_left services w

module _ {W : Type 0} (io : InputOutput W) (timers : PendingTimers W) (handlers : Handlers W) where
  -- The `catch` of `BadServiceRequest`.
  abbrev pub broken_protocol : ℕ → Result (Unit {0}) × W → Result (Unit {0}) × W
  broken_protocol actor_uid (ok a, w) = (ok a, w)
  broken_protocol actor_uid (err (bad_service_request m), w) =
      io.close_pipeline_with actor_uid (refused m) w
  broken_protocol actor_uid (err e, w) = (err e, w)

  unfoldable pub serve_request : List (RunningService W) → ℕ → Text → Action W (Unit {0})
  serve_request ser_protocol actor_uid service_request w = broken_protocol actor_uid (
      (do
        sr_command_response ← handle_service_request ser_protocol actor_uid service_request
        io.reply_to actor_uid sr_command_response)
        w)

  -- The iterator into `pending_timers_` is tested before it is used.
  unfoldable pub trigger_timer : ℕ → Action W (Unit {0})
  trigger_timer timer_token = do
    pending ← gets timers.tokens
    guard (is_watched timer_token pending) assertion_failed
    timers.trigger timer_token
    modify (λ w. timers.set_tokens (forget timer_token (timers.tokens w)) w)

  -- `InputEventVisitor`.
  unfoldable pub visit : List (RunningService W) → InputEvent → Action W (Unit {0})
  unfolding serve_request trigger_timer
  visit ser_protocol (none_event actor) = handlers.user_none_handler actor
  visit ser_protocol (service_request_event actor request) = do
    serve_request ser_protocol actor request
    handlers.user_service_request_handler actor request
  visit ser_protocol (timer_event actor token) = do
    trigger_timer token
    handlers.user_timer_handler actor token
  visit ser_protocol (joined_event actor player_name) =
      handlers.user_joined_handler actor player_name
  visit ser_protocol (left_event actor reason) = handlers.user_left_handler actor reason

  -- One waiting timer: its entry, its routine, its countdown.
  unfoldable pub begin_waiting_timer : ℕ → Action W (Unit {0})
  begin_waiting_timer timer_token = do
    pending ← gets timers.tokens
    guard (not (is_watched timer_token pending)) assertion_failed
    modify (timers.set_tokens (pending ++ timer_token ∷ []))
    timers.erase_on_clear timer_token
    io.begin_timer timer_token

  unfoldable pub begin_waiting_timers : List ℕ → Action W (Unit {0})
  unfolding begin_waiting_timer
  begin_waiting_timers [] w = (ok tt, w)
  begin_waiting_timers (t ∷ waiting) w = (begin_waiting_timer t >> begin_waiting_timers waiting) w

  -- The timers of a service are read when its turn comes.
  unfoldable pub check_timers : List (ExecutedService W) → Action W (Unit {0})
  unfolding begin_waiting_timers
  check_timers [] w = (ok tt, w)
  check_timers (service ∷ services) w =
      (begin_waiting_timers (service.get_waiting_timers w) >> check_timers services) w

  abbrev pub output_next : Action W (Unit {0}) → Option ServiceEvent → Action W (Unit {0})
  output_next rest none = pure tt
  output_next rest (some next_svc_event) = io.output_event next_svc_event >> rest

  -- The loop that polls the events of the services.
  unfoldable pub output_events : ℕ → List (RunningService W) → Action W (Unit {0})
  output_events zero ser_protocol w = (err unfinished, w)
  output_events (suc fuel) ser_protocol w =
      (poll_service_event ser_protocol >>= output_next (output_events fuel ser_protocol)) w

  -- One round for each event in the queues, and one that finds them empty.
  unfoldable pub output_all :
      List (RunningService W) → List (ExecutedService W) → Action W (Unit {0})
  unfolding output_events
  output_all ser_protocol services w = output_events (total_left services w + 1) ser_protocol w

  -- The body of the main loop.
  unfoldable pub iteration :
      List (RunningService W) → List (ExecutedService W) → Action W (Unit {0})
  unfolding visit check_timers output_all
  iteration ser_protocol services = do
    input_event ← io.wait_for_input
    visit ser_protocol input_event
    check_timers services
    handlers.loop_routine
    output_all ser_protocol services

  -- The main loop ends when the interface is closed. The fuel is the number of rounds that one looks at.
  unfoldable pub main_loop :
      ℕ → List (RunningService W) → List (ExecutedService W) → Action W (Unit {0})
  unfolding iteration
  main_loop zero ser_protocol services w = if io.closed w then (ok tt, w) else (err unfinished, w)
  main_loop (suc rounds) ser_protocol services w = elim (io.closed w) [
    | true ↦ (ok tt, w)
    | false ↦ (iteration ser_protocol services >> main_loop rounds ser_protocol services) w
  ]

module _ {W : Type 0} where
  -- What `run` returns: its `catch` takes every exception of the loop.
  abbrev pub caught : Result (Unit {0}) × W → Result Bool × W
  caught (ok a, w) = (ok true, w)
  caught (err e, w) = (if is_exception e then ok false else err e, w)

  abbrev pub ran : Executor W → Result Bool × W → Result Bool × (Executor W × W)
  ran x r = (r.0, (record x { configured = true }, r.1))

  -- The protocol is made in front of the `try`.
  unfoldable pub run :
      InputOutput W → PendingTimers W → ℕ → List (ExecutedService W) → Action (Executor W × W) Bool
  unfolding main_loop
  run io timers rounds services (x, w) =
      elim (register [] (map (λ (s : ExecutedService W). s.running) services)) [
        | err e ↦ (err e, (x, w))
        | ok ser_protocol ↦
            ran x (caught (main_loop io timers x.handlers rounds ser_protocol services w))
      ]
