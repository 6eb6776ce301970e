-- ===== src/Tests/Moves.antt =====
-- A move in the first round of a game of Açores, and the end of that round.
use rp_t_minigames_server.Prelude.{◌≡◌, refl, none, false, [], text}
use rp_t_minigames_server.Prelude.Int.{◌-ℤ◌, ◌+ℤ◌, to_int}
use rp_t_minigames_server.Outcome.{ok}
use rp_t_minigames_server.Numbers.{stoi}
use rp_t_minigames_server.Utils.TextProtocol.{new_parser, skip_separators, get_parsed_word}
use rp_t_minigames_server.Board.Grid.{is_inside_grid, at, cell, put, write, set_cell}
use rp_t_minigames_server.Board.Axis.{
  new_axis, moves, direction_for, distance_from_destination, move_forward,
}
use rp_t_minigames_server.Board.Game.{victory_for}
use rp_t_minigames_server.Board.Acores
use rp_t_minigames_server.Board.Any.{AnyGame, acores, play_any, victory_for_any, base}
use rp_t_minigames_server.Board.Any.Rounds.{new_acores_game}
use rp_t_minigames_server.Services.Minigame.{parse_move}
use rp_t_minigames_server.Services.Minigame.Plays.{
  Plays, Passes, request, request-Plays, request-Passes,
}
use rp_t_minigames_server.Tests.Games.{first_acores, acores_starts, square, one_step, acores_moves}
use rp_t_minigames_server.Tests.Sessions.{game}

abbrev first_game : AnyGame
first_game = acores first_acores

abbrev moved_game : AnyGame
moved_game = (play_any (square 3 2) (square 3 3) first_game).1

two_squares : parse_move (skip_separators (text "3 2 3 3")) ≡ ok (square 3 2, square 3 3)
unfolding parse_move new_parser skip_separators get_parsed_word stoi text
two_squares = refl

nobody_wins : victory_for_any moved_game ≡ ok none
unfolding victory_for_any victory_for play_any Acores.play new_axis ◌-ℤ◌ is_inside_grid moves ◌+ℤ◌
    direction_for at cell distance_from_destination to_int move_forward put write set_cell
nobody_wins = refl

request-Plays_example :
    Plays first_game moved_game none game false
      (request (text "MOVE") (text "3 2 3 3") first_game game)
request-Plays_example =
    request-Plays game first_game (text "3 2 3 3") (square 3 2) (square 3 3) one_step none
      (new_acores_game first_acores acores_starts) two_squares acores_moves nobody_wins

request-Passes_example :
    Passes moved_game (base moved_game).moved_flag (request (text "END") [] moved_game game)
request-Passes_example = request-Passes game moved_game []
