-- ===== src/Server.antt =====
-- minigames-server/src/Main.cpp: the services, the handlers that it gives to the executor, and the
-- exit codes. The I/O interface is a parameter: operations on a state `N` of its own, with
-- `begin_wait` and `cancel_wait` for the steady clock that `beginTimer` starts and a cleared timer
-- cancels. The lobby holds the minigame service, and its counters are those of every service.
pub mod Options
pub mod Events
pub mod Routines
pub mod Entry
pub mod Websockets
use rp_t_minigames_server.Prelude.{
  ℕ, Bool, true, false, not, ◌&&◌, List, [], ◌∷◌, ◌++◌, Option, none, some, Text, text, ◌==◌,
  if◌then◌else◌, length,
}
use rp_t_minigames_server.Outcome.{
  Result, ok, err, undefined_behaviour, Action, pure, lift, gets, modify, zoom, ◌>>=◌, ◌>>◌,
}
use rp_t_minigames_server.Messages.{is_exception}
use rp_t_minigames_server.Utils.HandlingResult.{HandlingResult}
use rp_t_minigames_server.Core.Timer
use rp_t_minigames_server.Core.Timer.{
  Timer, ServiceContext, new_context, begin_countdown, on_next_clear,
}
use rp_t_minigames_server.Core.Service.{
  Service, ServiceEvent, check_event, poll_event, get_waiting_timers, forget,
}
use rp_t_minigames_server.Core.Protocol.{RunningService}
use rp_t_minigames_server.Core.Executor.{
  InputOutput, ExecutedService, PendingTimers, Handlers, Executor, new_executor, handle_joined,
  handle_left, make, run,
}
use rp_t_minigames_server.Core.InputEvent.{InputEvent}
use rp_t_minigames_server.Board.Any.{AnyGame}
use rp_t_minigames_server.Services.Chat
use rp_t_minigames_server.Services.Chat.{ChatService, new_chat, keep_routine}
use rp_t_minigames_server.Services.Minigame
use rp_t_minigames_server.Services.Minigame.{MinigameService, new_minigame}
use rp_t_minigames_server.Services.Lobby
use rp_t_minigames_server.Services.Lobby.{
  Routine, start_minigame, erase_pending, cancel_countdown_of, LobbyService, new_lobby, on_minigame,
  assign_actor, remove_actor, notify_waiting, trigger_countdown,
}

pub record Network (N : Type 0) : Type 0 where
  pub closed : N → Bool
  pub wait_for_input : Action N InputEvent
  pub reply_to : ℕ → Text → Action N (Unit {0})
  pub output_event : ServiceEvent → Action N (Unit {0})
  pub close_pipeline_with : ℕ → HandlingResult → Action N (Unit {0})
  pub begin_wait : ℕ → ℕ → N → N
  pub cancel_wait : ℕ → N → N

pub record Server (N : Type 0) : Type 0 where
  pub network : N
  pub chat : ChatService Routine
  pub lobby : LobbyService
  pub pending_timers : List ℕ
  pub game_was_running : Bool

-- The services in the order in which `main` makes them.
unfoldable pub new_server : {N : Type 0} → N → (Unit {0} → AnyGame) → Server N
new_server network game_provider =
    let chat = new_chat {C = Routine} new_context 2000 in
    let minigame = new_minigame chat.run_context game_provider in
    record {
      network = network;
      chat = chat;
      lobby = new_lobby minigame.run_context minigame 5000;
      pending_timers = [];
      game_was_running = false;
    }

abbrev pub is_game_running : {N : Type 0} → Server N → Bool
is_game_running s = Minigame.is_started s.lobby.minigame_session

module _ {N : Type 0} (io : Network N) where
  -- What a cleared timer's routine does outside its service.
  abbrev pub apply_routine : Routine → Server N → Server N
  apply_routine start_minigame s = s
  apply_routine (erase_pending token) s = record s {
    pending_timers = forget token s.pending_timers;
  }
  apply_routine (cancel_countdown_of token) s = record s {
    network = io.cancel_wait token s.network;
  }

  unfoldable pub apply_routines : List Routine → Server N → Server N
  apply_routines [] s = s
  apply_routines (r ∷ routines) s = apply_routines routines (apply_routine r s)

  -- A call on the lobby, and on what it shares: the routines that it ran take effect.
  unfoldable pub on_lobby : {A : Type 0} → Action LobbyService A → Action (Server N) A
  unfolding apply_routines
  on_lobby act s =
      let (r, l) = act s.lobby in
      (r, apply_routines l.routines_run (record s { lobby = record l { routines_run = [] } }))

  unfoldable pub on_chat : {A : Type 0} → Action (ChatService Routine) A → Action (Server N) A
  unfolding apply_routines
  on_chat act s =
      let (r, c) = act (record (s.chat) { run_context = s.lobby.run_context }) in
      (
        r,
        apply_routines c.routines_run (record s {
          chat = record c { routines_run = [] };
          lobby = record (s.lobby) { run_context = c.run_context };
        }),
      )

  abbrev pub on_network : {A : Type 0} → Action N A → Action (Server N) A
  on_network = zoom (λ s. s.network) (λ n s. record s { network = n })

  -- The timers by their tokens.
  unfoldable pub timer_of : Server N → ℕ → Option (Timer Routine)
  timer_of s token =
      if s.lobby.starting_countdown.token == token
      then some s.lobby.starting_countdown
      else if s.chat.cooldown.token == token
      then some s.chat.cooldown
      else none

  -- A call on a timer that runs none of its routines.
  unfoldable pub on_timer : {A : Type 0} → ℕ → Action (Timer Routine) A → Action (Server N) A
  on_timer token act s =
      if s.lobby.starting_countdown.token == token
      then zoom (λ x. x.lobby.starting_countdown)
          (λ t x. record x { lobby = record (x.lobby) { starting_countdown = t } }) act s
      else if s.chat.cooldown.token == token
      then zoom (λ x. x.chat.cooldown) (λ t x. record x { chat = record (x.chat) { cooldown = t } })
          act s
      else (err undefined_behaviour, s)

  unfoldable pub trigger_cooldown : Action (ChatService Routine) (Unit {0})
  trigger_cooldown =
      zoom (λ c. (c.cooldown, c.routines_run))
        (λ x c. record c { cooldown = x.0; routines_run = x.1 }) (Timer.trigger keep_routine)

  unfoldable pub trigger_timer_of : ℕ → Action (Server N) (Unit {0})
  unfolding on_lobby on_chat trigger_cooldown
  trigger_timer_of token s =
      if s.lobby.starting_countdown.token == token
      then on_lobby trigger_countdown s
      else if s.chat.cooldown.token == token
      then on_chat trigger_cooldown s
      else (err undefined_behaviour, s)

  -- `beginTimer`, the same in both backends.
  unfoldable pub begin_timer : ℕ → Action (Server N) (Unit {0})
  unfolding on_timer
  begin_timer token = do
    countdown ← on_timer token begin_countdown
    on_timer token (modify (on_next_clear (cancel_countdown_of token)))
    on_network (modify (io.begin_wait token countdown))

  unfoldable pub pending_timers_of : PendingTimers (Server N)
  unfolding trigger_timer_of on_timer
  pending_timers_of = record {
    tokens = λ s. s.pending_timers;
    set_tokens = λ tokens s. record s { pending_timers = tokens };
    trigger = trigger_timer_of;
    erase_on_clear = λ token. on_timer token (modify (on_next_clear (erase_pending token)));
  }

  unfoldable pub input_output : InputOutput (Server N)
  unfolding begin_timer
  input_output = record {
    closed = λ s. io.closed s.network;
    wait_for_input = on_network io.wait_for_input;
    reply_to = λ actor response. on_network (io.reply_to actor response);
    output_event = λ event. on_network (io.output_event event);
    begin_timer = begin_timer;
    close_pipeline_with = λ actor reason. on_network (io.close_pipeline_with actor reason);
  }

  abbrev pub service_poll :
      Text → (Server N → Service) → (Service → Server N → Server N) → Action (Server N) ServiceEvent
  service_poll name get put = zoom get put (poll_event name)

  unfoldable pub chat_service : ExecutedService (Server N)
  unfolding on_chat timer_of
  chat_service = record {
    running = record {
      name = text "Chat";
      handle = λ actor command. on_chat (Chat.handle_request_command actor command);
      next_event_id = λ s. check_event s.chat.service;
      poll =
          service_poll (text "Chat") (λ s. s.chat.service)
            (λ v s. record s { chat = record (s.chat) { service = v } });
    };
    get_waiting_timers = λ s. get_waiting_timers (timer_of s) s.chat.service.watched_timers;
    events_left = λ s. length s.chat.service.events_queue;
  }

  unfoldable pub minigame_service : ExecutedService (Server N)
  unfolding on_lobby timer_of
  minigame_service = record {
    running = record {
      name = text "Minigame";
      handle =
          λ actor command. on_lobby (on_minigame (Minigame.handle_request_command actor command));
      next_event_id = λ s. check_event s.lobby.minigame_session.service;
      poll =
          service_poll (text "Minigame") (λ s. s.lobby.minigame_session.service)
            (λ v s. record s {
              lobby = record (s.lobby) {
                minigame_session = record (s.lobby.minigame_session) { service = v };
              };
            });
    };
    get_waiting_timers =
        λ s. get_waiting_timers (timer_of s) s.lobby.minigame_session.service.watched_timers;
    events_left = λ s. length s.lobby.minigame_session.service.events_queue;
  }

  unfoldable pub lobby_service : ExecutedService (Server N)
  unfolding on_lobby timer_of
  lobby_service = record {
    running = record {
      name = text "Lobby";
      handle = λ actor command. on_lobby (Lobby.handle_request_command actor command);
      next_event_id = λ s. check_event s.lobby.service;
      poll =
          service_poll (text "Lobby") (λ s. s.lobby.service)
            (λ v s. record s { lobby = record (s.lobby) { service = v } });
    };
    get_waiting_timers = λ s. get_waiting_timers (timer_of s) s.lobby.service.watched_timers;
    events_left = λ s. length s.lobby.service.events_queue;
  }

  unfoldable pub services : List (ExecutedService (Server N))
  unfolding chat_service minigame_service lobby_service
  services = chat_service ∷ minigame_service ∷ lobby_service ∷ []

  -- The handlers of `JoinedEvent` and of `LeftEvent`.
  unfoldable pub on_joined : ℕ → Text → Action (Server N) (Unit {0})
  unfolding on_lobby
  on_joined actor name = do player ← on_lobby (assign_actor actor); pure tt

  -- A game that one of its players left would never end.
  abbrev pub stop_if : Bool → Action (Server N) (Unit {0})
  stop_if true = on_lobby (on_minigame Minigame.stop)
  stop_if false = pure tt

  unfoldable pub on_left : ℕ → HandlingResult → Action (Server N) (Unit {0})
  unfolding on_lobby
  on_left actor reason = do
    on_lobby (remove_actor actor)
    running ← gets is_game_running
    stop_if running

  abbrev pub notify_if : Bool → Action (Server N) (Unit {0})
  notify_if true = on_lobby notify_waiting
  notify_if false = pure tt

  -- The lambda given to `make`: a game that ran and runs no more is over for the lobby too.
  unfoldable pub loop_routine : Action (Server N) (Unit {0})
  unfolding on_lobby
  loop_routine = do
    running ← gets is_game_running
    was_running ← gets (λ s. s.game_was_running)
    notify_if (was_running && not running)
    modify (λ s. record s { game_was_running = running })

  unfoldable pub configured_executor : Action (Executor (Server N)) (Unit {0})
  unfolding on_joined on_left loop_routine
  configured_executor = do handle_joined on_joined; handle_left on_left; make loop_routine

  -- `main` once the interface and the services are made, with the exit code: `SUCCESS` or
  -- `RUNTIME_ERROR`. The last errors of the model are no exceptions: they abort the process.
  abbrev pub exit_code : Result Bool → Result ℕ
  exit_code (ok true) = ok 0
  exit_code (ok false) = ok 2
  exit_code (err e) = if is_exception e then ok 2 else err e

  unfoldable pub serve : ℕ → Server N → Result ℕ × Server N
  unfolding configured_executor pending_timers_of input_output services
  serve rounds s =
      let (configured, executor) = configured_executor new_executor in
      let (done, state) = run input_output pending_timers_of rounds services (executor, s) in
      (exit_code done, state.1)
