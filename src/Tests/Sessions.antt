-- ===== src/Tests/Sessions.antt =====
-- A lobby with two players, a game between them, a timer and two queues of events.
use rp_t_minigames_server.Prelude.{
  ℕ, ◌≡◌, refl, inl, true, false, none, some, List, [], ◌∷◌, ◌++◌, text, arith,
}
use rp_t_minigames_server.Outcome.{ok, err}
use rp_t_minigames_server.Outcome.Ends.{Ends}
use rp_t_minigames_server.Utils.HandlingResult.{handled}
use rp_t_minigames_server.Core.Timer.{ServiceContext, Timer, disabled, pending}
use rp_t_minigames_server.Core.Timer.Life.{LivesOn, timer_life}
use rp_t_minigames_server.Core.Service.{Service, emit_event, poll_event}
use rp_t_minigames_server.Core.Service.Order.{
  InOrder, Polled, emit_event-InOrder, poll_event-InOrder,
}
use rp_t_minigames_server.Core.Protocol.{RunningService}
use rp_t_minigames_server.Core.Protocol.Emitters.{PollsLowest, poll_service_event-PollsLowest}
use rp_t_minigames_server.Board.Any.{acores}
use rp_t_minigames_server.Services.Minigame
use rp_t_minigames_server.Services.Minigame.{MinigameService, is_started, start, stop}
use rp_t_minigames_server.Services.Minigame.Turns.{
  MayAct, handle_request_command-MayAct, Started, Stopped, start-stop-Sessions,
}
use rp_t_minigames_server.Services.Lobby
use rp_t_minigames_server.Services.Lobby.{
  LobbyService, Entrant, Routine, cancel_countdown_of, assign_actor, remove_actor,
  trigger_countdown, Entrant,
}
use rp_t_minigames_server.Services.Lobby.Seats.{IsSound}
use rp_t_minigames_server.Services.Lobby.Requests.{Toggled, handle_request_command-Toggled}
use rp_t_minigames_server.Services.Lobby.Assignments.{Seated, assign_actor-Seated}
use rp_t_minigames_server.Services.Lobby.Departures.{Removed, remove_actor-Removed}
use rp_t_minigames_server.Services.Lobby.Countdown.{counting_down, trigger_countdown-starts}
use rp_t_minigames_server.Tests.Games.{first_acores}

abbrev pub context : ServiceContext
context = record { events_count = 3; timers_count = 1 }

abbrev pub idle : Service
idle = record { events_queue = []; watched_timers = [] }

-- A running game of Açores between the actors 4 and 7.
abbrev pub game : MinigameService
game = record {
  run_context = context;
  service = idle;
  rpt_minigame_provider = λ _. acores first_acores;
  current_game = some (acores first_acores);
  white_player_actor = 4;
  black_player_actor = 7;
}

-- Both have a seat, and 4 is ready.
abbrev pub lobby : LobbyService
lobby = record {
  run_context = context;
  service = idle;
  minigame_session = record game { current_game = none };
  white_player_actor = some (record { actor_uid = 4; is_ready = true });
  black_player_actor = some (record { actor_uid = 7; is_ready = false });
  ready_players = 1;
  starting_countdown = record {
    token = 0;
    countdown_ms = 3000;
    current_state = disabled;
    clear_callbacks = cancel_countdown_of 0 ∷ [];
    trigger_callbacks = [];
  };
  routines_run = [];
}

pub lobby-IsSound : IsSound lobby
lobby-IsSound = record { counted = refl; armed = inl refl; quiet = tt }

handle_request_command-Toggled_example :
    Ends lobby
      (λ r l'. (r ≡ handled) × Toggled 7 lobby l')
      (Lobby.handle_request_command 7 (text "READY") lobby)
handle_request_command-Toggled_example =
    handle_request_command-Toggled 7 (text "READY") lobby lobby-IsSound

remove_actor-Removed_example : Ends lobby (λ _ l'. Removed 4 lobby l') (remove_actor 4 lobby)
remove_actor-Removed_example = remove_actor-Removed 4 lobby lobby-IsSound

abbrev four : Entrant
four = record { actor_uid = 4; is_ready = true }

abbrev seven : Entrant
seven = record { actor_uid = 7; is_ready = true }

trigger_countdown-starts_example :
    let ended = trigger_countdown (counting_down four seven none lobby) in
    (ended.0 ≡ ok tt)
    × (ended.1.minigame_session.current_game ≡ some (acores first_acores))
    × (ended.1.minigame_session.white_player_actor ≡ 4)
    × (ended.1.minigame_session.black_player_actor ≡ 7)
    × (ended.1.ready_players ≡ 0)
    × (ended.1.white_player_actor ≡ some (record { actor_uid = 4; is_ready = false }))
    × (ended.1.black_player_actor ≡ some (record { actor_uid = 7; is_ready = false }))
    × ((trigger_countdown (counting_down four seven (some (acores first_acores)) lobby)).0
        ≡ err (Minigame.bad_state (text "Game is already running")))
trigger_countdown-starts_example = trigger_countdown-starts four seven (acores first_acores) lobby

abbrev half_empty : LobbyService
half_empty = record lobby { black_player_actor = none }

half_empty-IsSound : IsSound half_empty
half_empty-IsSound = record { counted = refl; armed = inl refl; quiet = tt }

assign_actor-Seated_example :
    Seated 9 half_empty half_empty.white_player_actor none (assign_actor 9 half_empty)
assign_actor-Seated_example = assign_actor-Seated 9 half_empty half_empty-IsSound

handle_request_command-MayAct_example : MayAct 7 (text "END") game
handle_request_command-MayAct_example = handle_request_command-MayAct 7 (text "END") game

abbrev stopped_game : MinigameService
stopped_game = record game { current_game = none }

start-stop-Sessions_example :
    Started 4 7 stopped_game none (start 4 7 stopped_game)
    × Stopped stopped_game none (stop stopped_game)
start-stop-Sessions_example = start-stop-Sessions 4 7 stopped_game

abbrev one_event : Service
one_event = record {
  events_queue = (2, record { command = text "PLAYING"; event_targets = none }) ∷ [];
  watched_timers = [];
}

one_event-InOrder : InOrder (context, one_event)
unfolding InOrder
one_event-InOrder = (omega arith, omega arith)

emit_event-InOrder_example :
    InOrder (emit_event (text "WAITING") (4 ∷ []) (context, one_event))
    × ((emit_event (text "WAITING") (4 ∷ []) (context, one_event)).1.events_queue
        ≡ one_event.events_queue
          ++ (3, record { command = text "WAITING"; event_targets = some (4 ∷ []) }) ∷ [])
emit_event-InOrder_example =
    emit_event-InOrder (text "WAITING") (4 ∷ []) context one_event (omega arith) one_event-InOrder

poll_event-InOrder_example :
    Polled
      (text "Lobby")
      context
      one_event
      one_event.events_queue
      (poll_event (text "Lobby") one_event)
poll_event-InOrder_example = poll_event-InOrder (text "Lobby") context one_event one_event-InOrder

-- Two services whose state is the identifiers of their next events.
abbrev chat_and_lobby : List (RunningService (ℕ × ℕ))
chat_and_lobby =
    record {
      name = text "Chat";
      handle = λ actor command w. (ok handled, w);
      next_event_id = λ w. some w.0;
      poll = λ w. (ok (record { command = text "A"; event_targets = none }), w);
    }
    ∷ record {
      name = text "Lobby";
      handle = λ actor command w. (ok handled, w);
      next_event_id = λ w. some w.1;
      poll = λ w. (ok (record { command = text "B"; event_targets = none }), w);
    }
    ∷ []

poll_service_event-PollsLowest_example : PollsLowest (5, 2) chat_and_lobby
poll_service_event-PollsLowest_example = poll_service_event-PollsLowest (5, 2) chat_and_lobby

abbrev countdown : Timer ℕ
countdown = record {
  token = 0;
  countdown_ms = 3000;
  current_state = pending;
  clear_callbacks = 1 ∷ [];
  trigger_callbacks = 2 ∷ 3 ∷ [];
}

abbrev log : ℕ → List ℕ → List ℕ
log routine run = run ++ routine ∷ []

timer_life_example : LivesOn (λ c s. (ok tt, log c s)) log (λ c s. refl) countdown []
timer_life_example = timer_life (λ c s. (ok tt, log c s)) log (λ c s. refl) countdown []
