-- ===== src/Services/Minigame/Plays.antt =====
-- The requests of the player who has the turn, and what they do to the game.
use rp_t_minigames_server.Prelude.{
  ℕ, ◌≡◌, refl, sym, subst, ap, Bool, true, false, ◌==◌, [], ◌∷◌, Option, some, Text, text, text_eq,
}
use rp_t_minigames_server.Outcome.{Result, ok, err, after, move_required}
use rp_t_minigames_server.Utils.HandlingResult.{HandlingResult, handled}
use rp_t_minigames_server.Utils.TextProtocol.{TextProtocolParser, skip_separators, get_parsed_word}
use rp_t_minigames_server.Utils.TextProtocol.Joined.{IsWord, join, new_parser-join}
use rp_t_minigames_server.Maps.Lookup.{==_self}
use rp_t_minigames_server.Board.Grid.{Coordinates}
use rp_t_minigames_server.Board.Game.{Player, GridUpdate, current_round, other_player}
use rp_t_minigames_server.Board.Any.{
  AnyGame, base, is_round_terminated_any, victory_for_any, next_round_any, play_any,
}
use rp_t_minigames_server.Board.Any.Rounds.{Reachable, next_round_any-turn, next_round_any-refused}
use rp_t_minigames_server.Services.Minigame.{
  MinigameService, MinigameAction, move, end, bad_state, terminate_round, handle_move,
  handle_action, handle_in_game, handle_request_command, expected_actor, move_command,
  parse_request, parse_move,
}
use rp_t_minigames_server.Services.Minigame.Moves.{playing, AfterMove, handle_move-AfterMove}

-- What a request to move to the service with the game `g` does, by whether the round is terminated.
abbrev pub Plays :
    AnyGame
    → AnyGame
    → Option Player
    → MinigameService
    → Bool
    → Result HandlingResult × MinigameService
    → Type 0
Plays g g' v m true x =
    x ≡ (err (bad_state (text "Cannot make any move, round terminated")), playing g m)
Plays g g' v m false x =
    (x.0 ≡ ok handled) × AfterMove g g' v (is_round_terminated_any g') x.1.current_game

handle_action-Plays :
    (t : Bool) (m : MinigameService) (g : AnyGame) (parser : TextProtocolParser)
    (from to : Coordinates) (u : GridUpdate) (v : Option Player)
    → is_round_terminated_any g ≡ t
    → Reachable g
    → parse_move parser.unparsed_words ≡ ok (from, to)
    → (play_any from to g).0 ≡ ok u
    → victory_for_any (play_any from to g).1 ≡ ok v
    → Plays g (play_any from to g).1 v m t (handle_action (move, parser) (playing g m))
unfolding handle_action move_command handle_move
handle_action-Plays true m g parser from to u v over r parsed played won = rw (parsed, over) refl
handle_action-Plays false m g parser from to u v going r parsed played won =
    let (m', moved, result) =
      handle_move-AfterMove m g parser.unparsed_words from to u v r parsed going played won in
    let done : handle_action (move, parser) (playing g m) ≡ (ok handled, m') =
      ap
        (λ (x : Result (Unit {0}) × MinigameService).
          after x.0 (λ (u : Unit {0}). (ok handled, x.1)) x.1)
        moved in
    (
      ap (λ (x : Result HandlingResult × MinigameService). x.0) done,
      subst
          (λ (x : Result HandlingResult × MinigameService).
            AfterMove g (play_any from to g).1 v (is_round_terminated_any (play_any from to g).1)
              x.1.current_game)
          (sym done) result,
    )

-- A request that is written down, from the player who has the turn.
abbrev pub request :
    Text → Text → AnyGame → MinigameService → Result HandlingResult × MinigameService
request word args g m =
    handle_request_command (expected_actor (current_round (base g)) (playing g m))
      (join (word ∷ []) args) (playing g m)

move-IsWord : IsWord (text "MOVE")
unfolding text
move-IsWord = (refl, (refl, (refl, (refl, tt))))

end-IsWord : IsWord (text "END")
unfolding text
end-IsWord = (refl, (refl, (refl, tt)))

abbrev parser_of : Text → Text → TextProtocolParser
parser_of word args = record { parsed_words = word ∷ []; unparsed_words = skip_separators args }

parse_request-move :
    (args : Text)
    → parse_request (join (text "MOVE" ∷ []) args) ≡ ok (move, parser_of (text "MOVE") args)
unfolding parse_request get_parsed_word text_eq text
parse_request-move args = rw (new_parser-join (text "MOVE" ∷ []) args (move-IsWord, tt)) refl

parse_request-end :
    (args : Text)
    → parse_request (join (text "END" ∷ []) args) ≡ ok (end, parser_of (text "END") args)
unfolding parse_request get_parsed_word text_eq text
parse_request-end args = rw (new_parser-join (text "END" ∷ []) args (end-IsWord, tt)) refl

in_game-own :
    (g : AnyGame) (actor : ℕ) (sr_command_data : Text)
    (action : MinigameAction × TextProtocolParser) (m : MinigameService)
    → (actor == expected_actor (current_round (base g)) m) ≡ true
    → parse_request sr_command_data ≡ ok action
    → handle_in_game g actor sr_command_data m ≡ handle_action action m
unfolding handle_in_game
in_game-own g actor sr_command_data action m own parsed = rw (own, parsed) refl

request-steps :
    (word args : Text) (action : MinigameAction × TextProtocolParser) (g : AnyGame)
    (m : MinigameService)
    → parse_request (join (word ∷ []) args) ≡ ok action
    → request word args g m ≡ handle_action action (playing g m)
unfolding handle_request_command
request-steps word args action g m parsed =
    in_game-own g (expected_actor (current_round (base g)) (playing g m)) (join (word ∷ []) args)
      action (playing g m) (==_self (expected_actor (current_round (base g)) (playing g m))) parsed

-- A request MOVE of the player who has the turn, in a game that can be reached, when its arguments are
-- parsed as two squares, between which the game's rules let the player move. While the round is not
-- terminated the request succeeds: the game is over if the move gives a winner; else, if the move
-- terminates the round, the opponent has the turn and has not moved yet; else the same player has the
-- turn and has moved. Once the round is terminated the request throws and changes nothing.
pub request-Plays :
    (m : MinigameService) (g : AnyGame) (args : Text) (from to : Coordinates) (u : GridUpdate)
    (v : Option Player)
    → Reachable g
    → parse_move (skip_separators args) ≡ ok (from, to)
    → (play_any from to g).0 ≡ ok u
    → victory_for_any (play_any from to g).1 ≡ ok v
    → Plays g
        (play_any from to g).1
        v
        m
        (is_round_terminated_any g)
        (request (text "MOVE") args g m)
request-Plays m g args from to u v r parsed played won =
    subst (Plays g (play_any from to g).1 v m (is_round_terminated_any g))
      (sym (
        request-steps (text "MOVE") args (move, parser_of (text "MOVE") args) g m
          (parse_request-move args)))
      (handle_action-Plays (is_round_terminated_any g) m g (parser_of (text "MOVE") args) from to u
        v refl r parsed played won)

-- What a request to end the round does, by whether the player has moved in it.
abbrev pub Passes : AnyGame → Bool → Result HandlingResult × MinigameService → Type 0
Passes g true x =
    (x.0 ≡ ok handled)
    × ((next : AnyGame) × (x.1.current_game ≡ some next)
        × ((base next).current_player ≡ other_player (base g).current_player)
        × ((base next).moved_flag ≡ false))
Passes g false x =
    (x.0 ≡ err move_required)
    × ((next : AnyGame) × (x.1.current_game ≡ some next) × (base next ≡ base g))

handle_action-Passes :
    (t : Bool) (m : MinigameService) (g : AnyGame) (parser : TextProtocolParser)
    → (base g).moved_flag ≡ t
    → Passes g t (handle_action (end, parser) (playing g m))
unfolding handle_action terminate_round
handle_action-Passes true m g parser moved =
    let (returned, turn, flag) = next_round_any-turn g moved in
    (rw returned refl, ((next_round_any g).1, rw returned refl, turn, flag))
handle_action-Passes false m g parser still =
    let (refused, same) = next_round_any-refused g still in
    (rw refused refl, ((next_round_any g).1, rw refused refl, same))

-- A request END of the player who has the turn: once that player has moved in the round it succeeds,
-- and the opponent has the turn and has not moved yet. Before that it throws, and the grid, the
-- counters and the turn of the game are as they were.
pub request-Passes :
    (m : MinigameService) (g : AnyGame) (args : Text)
    → Passes g (base g).moved_flag (request (text "END") args g m)
request-Passes m g args =
    subst (Passes g (base g).moved_flag)
      (sym (
        request-steps (text "END") args (end, parser_of (text "END") args) g m
          (parse_request-end args)))
      (handle_action-Passes (base g).moved_flag m g (parser_of (text "END") args) refl)
