-- ===== src/Tests/Games.antt =====
-- First moves of the three games.
use rp_t_minigames_server.Prelude.{
  ◌∷◌, text, ℕ, ◌<◌, ◌≤◌, ◌≡◌, ◌≢◌, ◌↔◌, refl, true, false, none, some, List, [],
}
use rp_t_minigames_server.Prelude.Int.{pos, ◌-ℤ◌, ◌+ℤ◌, to_int}
use rp_t_minigames_server.Outcome.{
  ok, err, unfinished, out_of_range, bad_mutable_flag, move_required,
}
use rp_t_minigames_server.Outcome.Ends.{Ends}
use rp_t_minigames_server.Board.Grid.{
  Grid, Coordinates, Square, new_grid, push_lines, is_inside_grid, at, cell, put, write, set_cell,
}
use rp_t_minigames_server.Board.Grid.Cells.{IsValid, count}
use rp_t_minigames_server.Board.Grid.Shape.{new_grid-IsValid}
use rp_t_minigames_server.Board.Axis.{
  AxisIterator, left, every_direction, current_position, new_axis, moves, direction_for,
  distance_from_destination, move_forward, axis_between, is_allowed, right,
}
use rp_t_minigames_server.Board.Axis.Lines.{Leading, new_axis-Leading}
use rp_t_minigames_server.Board.Axis.Constant.{current_position-constant}
use rp_t_minigames_server.Board.Game.{Player, BoardGame, GridUpdate, new_board_game, victory_for}
use rp_t_minigames_server.Board.Game.Writes.{Tallied}
use rp_t_minigames_server.Board.Acores
use rp_t_minigames_server.Board.Acores.{Acores, new_acores}
use rp_t_minigames_server.Board.Acores.Play
use rp_t_minigames_server.Board.Acores.Play.{acores_play-Ends}
use rp_t_minigames_server.Board.Bermudes
use rp_t_minigames_server.Board.Bermudes.{Bermudes, new_bermudes, check_free_trajectory}
use rp_t_minigames_server.Board.Bermudes.Ending.{check_free_trajectory_ends}
use rp_t_minigames_server.Board.Bermudes.Play as BermudesPlay
use rp_t_minigames_server.Board.Bermudes.Play.{bermudes_play-Ends}
use rp_t_minigames_server.Board.Canaries
use rp_t_minigames_server.Board.Canaries.{Canaries, new_canaries}
use rp_t_minigames_server.Board.Canaries.Play as CanariesPlay
use rp_t_minigames_server.Board.Canaries.Play.{canaries_play-Ends}
use rp_t_minigames_server.Board.Any.{acores, base, play_any, next_round_any}
use rp_t_minigames_server.Board.Any.Rounds.{
  new_acores-Tallied, new_bermudes-Tallied, new_canaries-Tallied, new_acores_game, played,
  next_round-play, Reachable-Tallied, victory_for-count,
}

abbrev pub square : ℕ → ℕ → Coordinates
square line column = record { line = pos line; column = pos column }

abbrev first_board : List (List Square) → ℕ → ℕ → BoardGame
first_board conf pawns threshold = record {
  pawns_count_threshold = threshold;
  current_player = Player.white;
  moved_flag = false;
  game_grid = record { squares_matrix = conf };
  white_pawns = pawns;
  black_pawns = pawns;
}

abbrev pub first_acores : Acores
first_acores = record { board = first_board Acores.initial_grid 12 1; last_move = none }

abbrev first_bermudes : Bermudes
first_bermudes = record { board = first_board Bermudes.initial_grid 27 6; last_move = none }

abbrev first_canaries : Canaries
first_canaries = record { board = first_board Canaries.initial_grid 8 2 }

pub acores_starts : new_acores ≡ ok first_acores
unfolding new_acores new_board_game new_grid push_lines
acores_starts = refl

bermudes_starts : new_bermudes ≡ ok first_bermudes
unfolding new_bermudes new_board_game new_grid push_lines
bermudes_starts = refl

canaries_starts : new_canaries ≡ ok first_canaries
unfolding new_canaries new_board_game new_grid push_lines
canaries_starts = refl

abbrev pub one_step : GridUpdate
one_step = record { updated_squares = []; move_origin = square 3 2; move_destination = square 3 3 }

pub acores_moves : (play_any (square 3 2) (square 3 3) (acores first_acores)).0 ≡ ok one_step
unfolding play_any Acores.play new_axis ◌-ℤ◌ is_inside_grid moves ◌+ℤ◌ direction_for at cell
    distance_from_destination to_int move_forward put write set_cell
acores_moves = refl

acores_play-Ends_example :
    Ends first_acores
      (λ u g'. Play.Keeps first_acores u g' × (g'.moved_flag ≡ true))
      (Acores.play (square 3 2) (square 3 3) first_acores)
acores_play-Ends_example =
    acores_play-Ends (square 3 2) (square 3 3) first_acores
      (new_acores-Tallied first_acores acores_starts)

bermudes_play-Ends_example :
    Ends first_bermudes
      (λ u g'. BermudesPlay.Keeps first_bermudes u g' × (g'.moved_flag ≡ true))
      (Bermudes.play (square 7 1) (square 3 1) first_bermudes)
bermudes_play-Ends_example =
    bermudes_play-Ends (square 7 1) (square 3 1) first_bermudes
      (new_bermudes-Tallied first_bermudes bermudes_starts)

canaries_play-Ends_example :
    Ends first_canaries
      (λ u g'. CanariesPlay.Keeps first_canaries u g' × (g'.moved_flag ≡ true))
      (Canaries.play (square 4 1) (square 2 1) first_canaries)
canaries_play-Ends_example =
    canaries_play-Ends (square 4 1) (square 2 1) first_canaries
      (new_canaries-Tallied first_canaries canaries_starts)

Reachable-Tallied_example :
    Tallied (base (play_any (square 3 2) (square 3 3) (acores first_acores)).1)
Reachable-Tallied_example =
    Reachable-Tallied (play_any (square 3 2) (square 3 3) (acores first_acores)).1 (
      played (square 3 2) (square 3 3) (acores first_acores)
        (new_acores_game first_acores acores_starts))

next_round-play_example :
    let after_move = (play_any (square 3 2) (square 3 3) (acores first_acores)).1 in
    let ended = next_round_any after_move in
    (ended.0 ≡ ok Player.black)
    × ((base ended.1).current_player ≡ Player.black)
    × ((next_round_any ended.1).0 ≡ err move_required)
next_round-play_example =
    next_round-play (square 3 2) (square 3 3) (acores first_acores) one_step
      (new_acores_game first_acores acores_starts) acores_moves

abbrev first : BoardGame
first = first_board Acores.initial_grid 12 1

victory_for-count_example :
    ((victory_for first ≡ some Player.black) ↔ (count Square.white first.game_grid < 1))
    × ((victory_for first ≡ some Player.white)
        ↔ ((1 ≤ count Square.white first.game_grid) × (count Square.black first.game_grid < 1)))
    × ((victory_for first ≡ none)
        ↔ ((1 ≤ count Square.white first.game_grid) × (1 ≤ count Square.black first.game_grid)))
victory_for-count_example = victory_for-count first (new_acores-Tallied first_acores acores_starts)

abbrev constant_axis : AxisIterator
constant_axis = record {
  mutable_grid = false;
  direction = left;
  axis = [];
  const_axis = square 2 2 ∷ square 2 1 ∷ [];
  current_pos = 0;
  destination_pos = some 1;
}

constant_axis_made :
    new_axis false first.game_grid (square 2 2) (square 2 1) every_direction ≡ ok constant_axis
unfolding new_axis ◌-ℤ◌ is_inside_grid moves ◌+ℤ◌ direction_for
constant_axis_made = refl

current_position-constant_example :
    (current_position (record constant_axis { current_pos = 0 })
      ≡ err (out_of_range (text "vector::_M_range_check")))
    × (move_forward (record constant_axis { current_pos = 0 }) ≡ err (bad_mutable_flag true))
current_position-constant_example =
    current_position-constant first.game_grid (square 2 2) (square 2 1) every_direction
      constant_axis 0 constant_axis_made

abbrev first_grid : Grid
first_grid = record { squares_matrix = Canaries.initial_grid }

new_grid-IsValid_example :
    (new_grid Canaries.initial_grid ≡ ok first_grid)
    ↔ ((first_grid ≡ record { squares_matrix = Canaries.initial_grid }) × IsValid first_grid)
new_grid-IsValid_example = new_grid-IsValid Canaries.initial_grid first_grid

abbrev bermudes_axis : AxisIterator
bermudes_axis = record {
  mutable_grid = true;
  direction = left;
  axis = square 2 3 ∷ square 2 2 ∷ square 2 1 ∷ [];
  const_axis = [];
  current_pos = 0;
  destination_pos = some 2;
}

check_free_trajectory_ends_example :
    (check_free_trajectory bermudes_axis (pos 0) first_bermudes).0 ≢ err unfinished
check_free_trajectory_ends_example = check_free_trajectory_ends bermudes_axis (pos 0) first_bermudes

from_inside : is_inside_grid first.game_grid (square 3 2) ≡ true
unfolding is_inside_grid
from_inside = refl

to_inside : is_inside_grid first.game_grid (square 3 3) ≡ true
unfolding is_inside_grid
to_inside = refl

rightwards : axis_between (square 3 2) (square 3 3) ≡ ok right
unfolding axis_between ◌-ℤ◌
rightwards = refl

allowed_right : is_allowed right every_direction ≡ true
unfolding is_allowed
allowed_right = refl

two_squares : square 3 2 ≢ square 3 3
two_squares h = cc

new_axis-Leading_example :
    (it : AxisIterator) × (new_axis true first.game_grid (square 3 2) (square 3 3) every_direction
      ≡ ok it)
    × Leading first.game_grid (square 3 2) (square 3 3) right it
new_axis-Leading_example =
    new_axis-Leading true first.game_grid (square 3 2) (square 3 3) every_direction right
      (new_acores-Tallied first_acores acores_starts).valid from_inside to_inside rightwards
      allowed_right two_squares
