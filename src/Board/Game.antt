-- ===== src/Board/Game.antt =====
-- minigames-services/src/BoardGame.cpp and include/Minigames-Services/BoardGame.hpp: players, updates
-- and the base class of the games. A method that may throw is an `Action` on the object.
pub mod Writes
pub mod Captures
use rp_t_minigames_server.Prelude.{
  ℕ, ◌+◌, ◌-◌, ◌%◌, ◌^◌, Bool, true, false, not, List, Option, none, some, text, ltb, ◌==◌,
  if◌then◌else◌,
}
use rp_t_minigames_server.Outcome.{
  Result, ok, err, invalid_argument, move_required, bind, check, Action, pure, gets, modify, guard,
  ◌>>=◌, ◌>>◌,
}
use rp_t_minigames_server.Board.Grid.{Grid, Coordinates, Square, new_grid, at, put}

pub data Player : Type 0 where
  white black : Player

abbrev pub color_for : Player → Square
color_for white = Square.white
color_for black = Square.black

pub record SquareUpdate : Type 0 where
  pub square : Coordinates
  pub updated_state : Square

pub record GridUpdate : Type 0 where
  pub updated_squares : List SquareUpdate
  pub move_origin : Coordinates
  pub move_destination : Coordinates

pub record BoardGame : Type 0 where
  pub pawns_count_threshold : ℕ
  pub current_player : Player
  pub moved_flag : Bool
  pub game_grid : Grid
  pub white_pawns : ℕ
  pub black_pawns : ℕ

unfoldable pub new_board_game : List (List Square) → ℕ → ℕ → ℕ → Result BoardGame
new_board_game initial_grid white_count black_count threshold =
    bind (new_grid initial_grid) (λ grid.
      bind
        (check (not (threshold == 0))
          (invalid_argument (text "Pawns count loose threshold must be positive strict")))
        (λ _. ok (record {
          pawns_count_threshold = threshold;
          current_player = white;
          moved_flag = false;
          game_grid = grid;
          white_pawns = white_count;
          black_pawns = black_count;
        })))

abbrev pub moved : Action BoardGame (Unit {0})
moved = modify λ b. record b { moved_flag = true }

abbrev pub has_moved : BoardGame → Bool
has_moved b = b.moved_flag

abbrev pub other_player : Player → Player
other_player white = black
other_player black = white

unfoldable pub next_round : Action BoardGame Player
next_round = do
  required ← gets has_moved
  guard required move_required
  modify (λ b. record b { moved_flag = false })
  modify (λ b. record b { current_player = other_player b.current_player })
  gets (λ b. b.current_player)

abbrev pub current_round : BoardGame → Player
current_round b = b.current_player

abbrev pub pawns_for : Player → BoardGame → ℕ
pawns_for white b = b.white_pawns
pawns_for black b = b.black_pawns

unfoldable pub victory_for : BoardGame → Option Player
victory_for b =
    if ltb b.white_pawns b.pawns_count_threshold
    then some black
    else if ltb b.black_pawns b.pawns_count_threshold
    then some white
    else none

-- `unsigned int` counters.
abbrev pub decremented : ℕ → ℕ
decremented n = (n + 2 ^ 32 - 1) % 2 ^ 32

abbrev pub incremented : ℕ → ℕ
incremented n = (n + 1) % 2 ^ 32

-- One pawn less for the opponent of a player.
abbrev pub opponent_loses_pawn : Player → BoardGame → BoardGame
opponent_loses_pawn white b = record b { black_pawns = decremented b.black_pawns }
opponent_loses_pawn black b = record b { white_pawns = decremented b.white_pawns }

-- One pawn of the opponent becomes the player's.
abbrev pub pawn_flipped : Player → BoardGame → BoardGame
pawn_flipped white b = record b {
  white_pawns = incremented b.white_pawns;
  black_pawns = decremented b.black_pawns;
}
pawn_flipped black b = record b {
  black_pawns = incremented b.black_pawns;
  white_pawns = decremented b.white_pawns;
}

-- `game_grid_[square]`, read and assigned to.
abbrev pub square_at : Coordinates → Action BoardGame Square
square_at square b = (at b.game_grid square, b)

abbrev pub assigned : Result Grid → Action BoardGame (Unit {0})
assigned (ok grid) b = (ok tt, record b { game_grid = grid })
assigned (err e) b = (err e, b)

abbrev pub assign : Coordinates → Square → Action BoardGame (Unit {0})
assign square state b = assigned (put b.game_grid square state) b
