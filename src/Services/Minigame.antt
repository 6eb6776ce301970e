-- ===== src/Services/Minigame.antt =====
-- minigames-services/src/MinigameService.cpp and include/Minigames-Services/MinigameService.hpp.
-- `run_context` is shared by the services: who calls this one hands the counters over and takes them
-- back.
pub mod Turns
pub mod Moves
pub mod Plays
use rp_t_minigames_server.Prelude.{
  ℕ, Bool, true, false, not, List, [], ◌∷◌, ◌++◌, Option, none, some, Text, text, text_eq, ◌==◌,
  if◌then◌else◌,
}
use rp_t_minigames_server.Prelude.Int.{ℤ}
use rp_t_minigames_server.Outcome.{
  Result, ok, err, Error, bad_board_game_state, bad_service_request, invalid_argument, out_of_range,
  undefined_behaviour, bind, Action, pure, lift, gets, modify, guard, ◌>>=◌, ◌>>◌,
}
use rp_t_minigames_server.Numbers.{to_string, to_string_ℤ, stoi}
use rp_t_minigames_server.Utils.HandlingResult.{HandlingResult, handled, refused}
use rp_t_minigames_server.Utils.TextProtocol.{TextProtocolParser, new_parser, get_parsed_word}
use rp_t_minigames_server.Core.Timer.{ServiceContext}
use rp_t_minigames_server.Core.Service.{Service, emit_event}
use rp_t_minigames_server.Board.Grid.{Coordinates, Square}
use rp_t_minigames_server.Board.Game.{Player, SquareUpdate, GridUpdate, current_round, pawns_for}
use rp_t_minigames_server.Board.Any.{
  AnyGame, base, next_round_any, play_any, is_round_terminated_any, victory_for_any,
}

pub record MinigameService : Type 0 where
  pub run_context : ServiceContext
  pub service : Service
  pub rpt_minigame_provider : Unit {0} → AnyGame
  pub current_game : Option AnyGame
  pub white_player_actor : ℕ
  pub black_player_actor : ℕ

unfoldable pub new_minigame : ServiceContext → (Unit {0} → AnyGame) → MinigameService
new_minigame context provider = record {
  run_context = context;
  service = record { events_queue = []; watched_timers = [] };
  rpt_minigame_provider = provider;
  current_game = none;
  white_player_actor = 0;
  black_player_actor = 0;
}

pub data MinigameAction : Type 0 where
  move end : MinigameAction

-- `MinigameRequestParser`.
unfoldable pub parse_request : Text → Result (MinigameAction × TextProtocolParser)
parse_request sr_command = bind (new_parser sr_command 1) (λ parser.
    bind (get_parsed_word 0 parser) (λ unparsed_action.
      if text_eq unparsed_action (text "MOVE")
      then ok (move, parser)
      else if text_eq unparsed_action (text "END")
      then ok (end, parser)
      else err (bad_service_request (text "Unknown action: " ++ unparsed_action))))

unfoldable pub move_command : MinigameAction × TextProtocolParser → Result Text
move_command (move, parser) = ok parser.unparsed_words
move_command (end, parser) =
    err (bad_service_request (text "Cannot get args for a non-MOVE action command"))

abbrev pub unable_to_parse : ℕ → Text → Error
unable_to_parse arg_i what =
    bad_service_request (text "Unable to parse MOVE arg #" ++ to_string arg_i ++ text ": " ++ what)

-- The `try` around `std::stoi`: both of its exceptions are `std::logic_error`s.
unfoldable pub parse_coordinate : ℕ → TextProtocolParser → Result ℤ
parse_coordinate arg_i parser = bind (get_parsed_word arg_i parser) (λ arg_copy.
    elim (stoi arg_copy) [
      | ok n ↦ ok n
      | err (invalid_argument m) ↦ err (unable_to_parse arg_i m)
      | err (out_of_range m) ↦ err (unable_to_parse arg_i m)
      | err e ↦ err e
    ])

-- `MoveActionParser`.
unfoldable pub parse_move : Text → Result (Coordinates × Coordinates)
unfolding parse_coordinate
parse_move move_action_command = bind (new_parser move_action_command 4) (λ parser.
    bind (parse_coordinate 0 parser) (λ from_line. bind (parse_coordinate 1 parser) (λ from_column.
      bind (parse_coordinate 2 parser) (λ to_line. bind (parse_coordinate 3 parser) (λ to_column.
        ok (
          record { line = from_line; column = from_column },
          record { line = to_line; column = to_column },
        ))))))

-- What `BadBoardGameState` says.
unfoldable pub bad_state : Text → Error
bad_state reason = bad_board_game_state (text "Bad board game state: " ++ reason)

abbrev pub emit : Text → List ℕ → Action MinigameService (Unit {0})
emit event_command event_targets = modify λ m.
    let (context, service) = emit_event event_command event_targets (m.run_context, m.service) in
    record m { run_context = context; service = service }

abbrev pub is_started : MinigameService → Bool
is_started m = elim m.current_game [ none ↦ false | some g ↦ true ]

-- A call through `current_game_`; through a null pointer it is undefined.
abbrev pub called : {A : Type 0} → Option AnyGame → Action AnyGame A → Action MinigameService A
called none call m = (err undefined_behaviour, m)
called (some g) call m = let (r, g') = call g in (r, record m { current_game = some g' })

abbrev pub on_game : {A : Type 0} → Action AnyGame A → Action MinigameService A
on_game call m = called m.current_game call m

unfoldable pub start : ℕ → ℕ → Action MinigameService (Unit {0})
unfolding bad_state
start white_actor black_actor = do
  running ← gets is_started
  guard (not running) (bad_state (text "Game is already running"))
  modify (λ m. record m { white_player_actor = white_actor; black_player_actor = black_actor })
  modify (λ m. record m { current_game = some (m.rpt_minigame_provider tt) })
  emit (text "START " ++ to_string white_actor ++ text " " ++ to_string black_actor) []
  emit (text "ROUND_FOR WHITE") []

abbrev pub player_word : Player → Text
player_word Player.white = text "WHITE"
player_word Player.black = text "BLACK"

abbrev pub square_word : Square → Text
square_word Square.free = text "FREE"
square_word Square.white = text "WHITE"
square_word Square.black = text "BLACK"

unfoldable pub terminate_round : Action MinigameService (Unit {0})
terminate_round = do
  next_player ← on_game next_round_any
  emit (text "ROUND_FOR " ++ player_word next_player) []

unfoldable pub stop : Action MinigameService (Unit {0})
unfolding bad_state
stop = do
  running ← gets is_started
  guard running (bad_state (text "Game is not running"))
  modify (λ m. record m { current_game = none })
  emit (text "STOP") []

-- The loop over the updated squares.
unfoldable pub sync_squares : List SquareUpdate → Action MinigameService (Unit {0})
sync_squares [] m = (ok tt, m)
sync_squares (u ∷ updates) m =
    (emit
          (text "SQUARE_STATE "
            ++ to_string_ℤ u.square.line
            ++ text " "
            ++ to_string_ℤ u.square.column
            ++ text " "
            ++ square_word u.updated_state)
          []
        >> sync_squares updates)
      m

abbrev pub moved_command : GridUpdate → Text
moved_command u =
    text "MOVED "
    ++ to_string_ℤ u.move_origin.line
    ++ text " "
    ++ to_string_ℤ u.move_origin.column
    ++ text " "
    ++ to_string_ℤ u.move_destination.line
    ++ text " "
    ++ to_string_ℤ u.move_destination.column

abbrev pub pawn_counts_command : AnyGame → Text
pawn_counts_command g =
    text "PAWN_COUNTS "
    ++ to_string (pawns_for Player.white (base g))
    ++ text " "
    ++ to_string (pawns_for Player.black (base g))

-- The end of `handleMove`: victory, or the next round, or more moves in this one.
unfoldable pub conclude_move : Option Player → Bool → Action MinigameService (Unit {0})
unfolding stop terminate_round
conclude_move (some winner) terminated = do
  emit (text "VICTORY_FOR " ++ player_word winner) []
  stop
  modify (λ m. record m { current_game = none })
conclude_move none true = terminate_round
conclude_move none false = pure tt

unfoldable pub handle_move : Text → Action MinigameService (Unit {0})
unfolding parse_move sync_squares conclude_move bad_state
handle_move move_command_args = do
  squares ← lift (parse_move move_command_args)
  finished ← on_game (gets is_round_terminated_any)
  guard (not finished) (bad_state (text "Cannot make any move, round terminated"))
  updates ← on_game (play_any squares.0 squares.1)
  sync_squares updates.updated_squares
  emit (moved_command updates) []
  counts ← on_game (gets pawn_counts_command)
  emit counts []
  possible_winner ← on_game (λ g. (victory_for_any g, g))
  terminated ← on_game (gets is_round_terminated_any)
  conclude_move possible_winner terminated

abbrev pub expected_actor : Player → MinigameService → ℕ
expected_actor Player.white m = m.white_player_actor
expected_actor Player.black m = m.black_player_actor

-- The switch over the parsed action.
unfoldable pub handle_action :
    MinigameAction × TextProtocolParser → Action MinigameService HandlingResult
unfolding handle_move terminate_round move_command
handle_action (move, parser) = do
  args ← lift (move_command (move, parser))
  handle_move args
  pure handled
handle_action (end, parser) = do terminate_round; pure handled

-- The part of the handler behind the test for a running game.
unfoldable pub handle_in_game : AnyGame → ℕ → Text → Action MinigameService HandlingResult
unfolding parse_request handle_action
handle_in_game game actor sr_command_data m =
    if actor == expected_actor (current_round (base game)) m
    then (do parsed ← lift (parse_request sr_command_data); handle_action parsed) m
    else (ok (refused (text "This is not your turn")), m)

abbrev pub handle_with : Option AnyGame → ℕ → Text → Action MinigameService HandlingResult
handle_with none actor sr_command_data m = (ok (refused (text "Game is stopped")), m)
handle_with (some game) actor sr_command_data m = handle_in_game game actor sr_command_data m

unfoldable pub handle_request_command : ℕ → Text → Action MinigameService HandlingResult
unfolding handle_in_game
handle_request_command actor sr_command_data m = handle_with m.current_game actor sr_command_data m
