-- ===== src/Services/Lobby.antt =====
-- minigames-services/src/LobbyService.cpp and include/Minigames-Services/LobbyService.hpp.
-- The minigame service is shared by reference: here it is a part of the state. The routines that a
-- timer holds are values of `Routine`; what they do to the executor and to the network backend is
-- kept in `routines_run`, in order.
pub mod Seats
pub mod Requests
pub mod Assignments
pub mod Departures
pub mod Countdown
use rp_t_minigames_server.Prelude.{
  ℕ, Bool, true, false, not, List, [], ◌∷◌, ◌++◌, Option, none, some, Text, text, text_eq, ◌==◌,
  if◌then◌else◌,
}
use rp_t_minigames_server.Outcome.{
  Result, ok, err, Error, bad_players_state, bad_service_request, invalid_argument,
  undefined_behaviour, bind, check, Action, pure, throw, lift, gets, modify, guard, zoom, ◌>>=◌,
  ◌>>◌,
}
use rp_t_minigames_server.Numbers.{to_string}
use rp_t_minigames_server.Utils.HandlingResult.{HandlingResult, handled}
use rp_t_minigames_server.Utils.TextProtocol.{new_parser, get_parsed_word}
use rp_t_minigames_server.Core.Timer
use rp_t_minigames_server.Core.Timer.{
  Timer, ServiceContext, new_timer, is_pending, on_next_trigger, request_countdown,
}
use rp_t_minigames_server.Core.Service.{Service, emit_event}
use rp_t_minigames_server.Board.Game.{Player, incremented, decremented}
use rp_t_minigames_server.Services.Minigame
use rp_t_minigames_server.Services.Minigame.{MinigameService}

-- What `onNextTrigger` and `onNextClear` are given: by the lobby, by the executor (it forgets a
-- pending timer) and by the backend (it cancels its own timer).
pub data Routine : Type 0 where
  start_minigame : Routine
  erase_pending cancel_countdown_of : ℕ → Routine

pub record Entrant : Type 0 where
  pub actor_uid : ℕ
  pub is_ready : Bool

pub record LobbyService : Type 0 where
  pub run_context : ServiceContext
  pub service : Service
  pub minigame_session : MinigameService
  pub white_player_actor : Option Entrant
  pub black_player_actor : Option Entrant
  pub ready_players : ℕ
  pub starting_countdown : Timer Routine
  pub routines_run : List Routine

-- The constructor; the base class watches the timer.
unfoldable pub new_lobby : ServiceContext → MinigameService → ℕ → LobbyService
new_lobby context rpt_minigame countdown_ms =
    let (timer, context') = new_timer context countdown_ms in
    record {
      run_context = context';
      service = record { events_queue = []; watched_timers = timer.token ∷ [] };
      minigame_session = rpt_minigame;
      white_player_actor = none;
      black_player_actor = none;
      ready_players = 0;
      starting_countdown = timer;
      routines_run = [];
    }

-- `CommandParser`.
unfoldable pub parse_command : Text → Result (Unit {0})
parse_command lobby_command = bind (new_parser lobby_command 1) (λ parser.
    bind (get_parsed_word 0 parser) (λ word.
      check (text_eq word (text "READY"))
        (bad_service_request (text "Only READY command is available for Lobby"))))

abbrev pub emit : Text → List ℕ → Action LobbyService (Unit {0})
emit event_command event_targets = modify λ l.
    let (context, service) = emit_event event_command event_targets (l.run_context, l.service) in
    record l { run_context = context; service = service }

abbrev pub on_minigame : {A : Type 0} → Action MinigameService A → Action LobbyService A
on_minigame =
    zoom (λ l. record (l.minigame_session) { run_context = l.run_context })
      (λ m l. record l { run_context = m.run_context; minigame_session = m })

abbrev pub entrant : Player → LobbyService → Option Entrant
entrant Player.white l = l.white_player_actor
entrant Player.black l = l.black_player_actor

abbrev pub set_entrant : Player → Option Entrant → LobbyService → LobbyService
set_entrant Player.white e l = record l { white_player_actor = e }
set_entrant Player.black e l = record l { black_player_actor = e }

abbrev pub is_actor : ℕ → Option Entrant → Bool
is_actor uid none = false
is_actor uid (some e) = e.actor_uid == uid

abbrev pub not_assigned : ℕ → Error
not_assigned uid =
    invalid_argument (text "Actor " ++ to_string uid ++ text " isn't assigned to any player")

-- The reference that it returns is named by the player.
unfoldable pub player_for : ℕ → LobbyService → Result Player
player_for uid l =
    if is_actor uid l.white_player_actor
    then ok Player.white
    else if is_actor uid l.black_player_actor
    then ok Player.black
    else err (not_assigned uid)

-- `(*optional)->field`, undefined on an empty optional.
abbrev pub held : Option Entrant → Result Entrant
held none = err undefined_behaviour
held (some e) = ok e

-- A call of the countdown, whose routines act on the rest of the lobby.
abbrev pub on_countdown :
    {A : Type 0} → Action (Timer Routine × LobbyService) A → Action LobbyService A
on_countdown =
    zoom (λ l. (l.starting_countdown, l)) (λ x l. record (x.1) { starting_countdown = x.0 })

abbrev pub on_timer : {A : Type 0} → Action (Timer Routine) A → Action LobbyService A
on_timer = zoom (λ l. l.starting_countdown) (λ t l. record l { starting_countdown = t })

-- The lambda given to `onNextTrigger`.
unfoldable pub start_session : Action LobbyService (Unit {0})
start_session = do
  white ← (λ l. (held l.white_player_actor, l))
  black ← (λ l. (held l.black_player_actor, l))
  on_minigame (Minigame.start white.actor_uid black.actor_uid)
  emit (text "PLAYING") []
  modify (λ l. record l { ready_players = 0 })
  modify (set_entrant Player.white (some (record white { is_ready = false })))
  modify (set_entrant Player.black (some (record black { is_ready = false })))

unfoldable pub run_routine : Routine → Action LobbyService (Unit {0})
unfolding start_session
run_routine start_minigame = start_session
run_routine (erase_pending token) =
    modify λ l. record l { routines_run = l.routines_run ++ erase_pending token ∷ [] }
run_routine (cancel_countdown_of token) =
    modify λ l. record l { routines_run = l.routines_run ++ cancel_countdown_of token ∷ [] }

unfoldable pub clear_countdown : Action LobbyService (Unit {0})
unfolding run_routine
clear_countdown = on_countdown (Timer.clear run_routine)

-- What the executor's `trigger()` of this timer does.
unfoldable pub trigger_countdown : Action LobbyService (Unit {0})
unfolding run_routine
trigger_countdown = on_countdown (Timer.trigger run_routine)

unfoldable pub cancel_countdown : Action LobbyService (Unit {0})
unfolding clear_countdown
cancel_countdown = do
  pending ← gets (λ l. is_pending l.starting_countdown)
  if pending then emit (text "END_COUNTDOWN") [] else pure tt
  clear_countdown

-- The notice to a new entrant that the other one is ready.
abbrev pub notify_ready : Option Entrant → ℕ → Action LobbyService (Unit {0})
notify_ready none uid = pure tt
notify_ready (some other) uid =
    if other.is_ready
    then emit (text "READY_PLAYER " ++ to_string other.actor_uid) (uid ∷ [])
    else pure tt

abbrev pub new_entrant : ℕ → Option Entrant
new_entrant uid = some (record { actor_uid = uid; is_ready = false })

-- By what the white and the black player are.
abbrev pub assign_by : Option Entrant → Option Entrant → ℕ → Action LobbyService Player
assign_by none black uid = do
  modify (set_entrant Player.white (new_entrant uid))
  notify_ready black uid
  pure Player.white
assign_by (some white) none uid = do
  modify (set_entrant Player.black (new_entrant uid))
  notify_ready (some white) uid
  pure Player.black
assign_by (some white) (some black) uid = throw (bad_players_state (text "No player available"))

unfoldable pub assign_actor : ℕ → Action LobbyService Player
assign_actor uid l = assign_by l.white_player_actor l.black_player_actor uid l

-- What the departure of a ready player, or of one who is not, changes besides the seat.
abbrev pub leave_ready : Bool → Action LobbyService (Unit {0})
leave_ready true = do
  cancel_countdown
  modify (λ l. record l { ready_players = decremented l.ready_players })
leave_ready false = pure tt

-- The body of the `try` once the player is known.
unfoldable pub remove_entrant : Player → Action LobbyService (Unit {0})
unfolding cancel_countdown
remove_entrant player = do
  e ← (λ l. (held (entrant player l), l))
  leave_ready e.is_ready
  modify (set_entrant player none)

-- The `catch`.
abbrev pub rethrown : {A : Type 0} → Result A × LobbyService → Result A × LobbyService
rethrown (ok a, l) = (ok a, l)
rethrown (err (invalid_argument m), l) = (err (bad_players_state m), l)
rethrown (err e, l) = (err e, l)

unfoldable pub remove_actor : ℕ → Action LobbyService (Unit {0})
unfolding player_for remove_entrant
remove_actor uid l = rethrown ((do player ← (λ l. (player_for uid l, l)); remove_entrant player) l)

-- The count and the notice that follow a flag's change.
abbrev pub count_ready : Bool → ℕ → Action LobbyService (Unit {0})
count_ready true actor = do
  modify (λ l. record l { ready_players = incremented l.ready_players })
  emit (text "READY_PLAYER " ++ to_string actor) []
count_ready false actor = do
  modify (λ l. record l { ready_players = decremented l.ready_players })
  emit (text "WAITING_FOR_PLAYER " ++ to_string actor) []

-- `beginCountdown` once the timer is clear.
unfoldable pub request_lobby_countdown : Action LobbyService (Unit {0})
request_lobby_countdown = do
  on_timer request_countdown
  on_timer (modify (on_next_trigger start_minigame))
  countdown ← gets (λ l. l.starting_countdown.countdown_ms)
  emit (text "BEGIN_COUNTDOWN " ++ to_string countdown) []

unfoldable pub begin_lobby_countdown : Action LobbyService (Unit {0})
unfolding clear_countdown request_lobby_countdown
begin_lobby_countdown = do clear_countdown; request_lobby_countdown

-- The countdown that the number of ready players calls for.
unfoldable pub settle_countdown : Action LobbyService (Unit {0})
unfolding begin_lobby_countdown cancel_countdown
settle_countdown l = (if l.ready_players == 2 then begin_lobby_countdown else cancel_countdown) l

-- `handleRequestCommand` once the actor is known to have a seat.
unfoldable pub toggle_ready : Player → Entrant → ℕ → Action LobbyService HandlingResult
unfolding settle_countdown
toggle_ready player e actor = do
  modify (set_entrant player (some (record e { is_ready = not e.is_ready })))
  count_ready (not e.is_ready) actor
  settle_countdown
  pure handled

unfoldable pub handle_request_command : ℕ → Text → Action LobbyService HandlingResult
unfolding parse_command player_for toggle_ready
handle_request_command actor sr_command_data = do
  lift (parse_command sr_command_data)
  player ← (λ l. (player_for actor l, l))
  e ← (λ l. (held (entrant player l), l))
  toggle_ready player e actor

unfoldable pub notify_waiting : Action LobbyService (Unit {0})
notify_waiting = do
  running ← gets (λ l. Minigame.is_started l.minigame_session)
  guard (not running)
      (Minigame.bad_state (text "To notify Lobby is waiting, it must actually be waiting"))
  emit (text "WAITING") []
