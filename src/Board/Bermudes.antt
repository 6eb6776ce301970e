-- ===== src/Board/Bermudes.antt =====
-- minigames-services/src/Bermudes.cpp and include/Minigames-Services/Bermudes.hpp.
pub mod Trajectory
pub mod Ending
pub mod Play
use rp_t_minigames_server.Prelude.{
  ℕ, zero, suc, ◌+◌, Bool, true, false, not, List, [], ◌∷◌, ◌++◌, Option, none, some, text,
  if◌then◌else◌, length,
}
use rp_t_minigames_server.Prelude.Int.{ℤ, pos, negsuc, negate, eqb_ℤ, ltb_ℤ}
use rp_t_minigames_server.Outcome.{
  Result, ok, err, bad_square_state, bad_coordinates, unfinished, bind, Action, pure, throw, lift,
  gets, modify, guard, zoom, ◌>>=◌, ◌>>◌,
}
use rp_t_minigames_server.Numbers.{to_string_ℤ}
use rp_t_minigames_server.Board.Grid.{Coordinates, Square, free, black, white, square_eq, flip}
use rp_t_minigames_server.Board.Axis.{
  AxisIterator, every_direction, new_axis, move_forward, current_position,
  distance_from_destination,
}
use rp_t_minigames_server.Board.Game.{
  Player, GridUpdate, BoardGame, color_for, new_board_game, next_round, moved, square_at, assign,
  opponent_loses_pawn, pawn_flipped,
}

pub data Move : Type 0 where
  elimination flipping : Move

abbrev pub is_move : Option Move → Move → Bool
is_move none m = false
is_move (some elimination) elimination = true
is_move (some elimination) flipping = false
is_move (some flipping) elimination = false
is_move (some flipping) flipping = true

pub record Bermudes : Type 0 where
  pub board : BoardGame
  pub open board use *
  pub last_move : Option Move

abbrev pub on_board : {A : Type 0} → Action BoardGame A → Action Bermudes A
on_board = zoom (λ g. g.board) (λ b g. record g { board = b })

abbrev pub line_of : Square → List Square
line_of s = s ∷ s ∷ s ∷ s ∷ s ∷ s ∷ s ∷ s ∷ s ∷ []

abbrev pub initial_grid : List (List Square)
initial_grid =
    line_of black
    ∷ line_of black
    ∷ line_of black
    ∷ line_of free
    ∷ line_of free
    ∷ line_of free
    ∷ line_of white
    ∷ line_of white
    ∷ line_of white
    ∷ []

unfoldable pub new_bermudes : Result Bermudes
new_bermudes =
    bind (new_board_game initial_grid 27 27 6) (λ b. ok (record { board = b; last_move = none }))

-- `Square next { move_trajectory.moveForward() }`: a copy of the state that the iterator reaches.
unfoldable pub next_state : AxisIterator → Action Bermudes (AxisIterator × Square)
next_state trajectory = do
  forward ← lift (move_forward trajectory)
  state ← on_board (square_at forward.1)
  pure (forward.0, state)

-- The loop of `checkFreeTrajectory`. The iterator is a reference there: it comes back moved.
unfoldable pub free_until : ℕ → ℤ → AxisIterator × Square → Action Bermudes AxisIterator
free_until zero until reached g = (err unfinished, g)
free_until (suc fuel) until (trajectory, state) g = elim (distance_from_destination trajectory) [
  | err e ↦ (err e, g)
  | ok distance ↦ elim (eqb_ℤ distance until) [
    | true ↦ (ok trajectory, g)
    | false ↦ elim (square_eq state free) [
      | true ↦ (do reached ← next_state trajectory; free_until fuel until reached) g
      | false ↦
          (do
            at_position ← lift (current_position trajectory)
            throw (
                bad_square_state (
                  text "Square at "
                  ++ to_string_ℤ at_position.line
                  ++ to_string_ℤ at_position.column
                  ++ text "inside trajectory isn't empty")))
            g
    ]
  ]
]

-- Each round moves forward on the axis, so that its length bounds the rounds.
unfoldable pub check_free_trajectory : AxisIterator → ℤ → Action Bermudes AxisIterator
unfolding next_state free_until
check_free_trajectory trajectory until = do
  reached ← next_state trajectory
  free_until (length trajectory.axis + 1) until reached

-- `playElimination` once the trajectory is known to be free.
unfoldable pub eliminate : GridUpdate → Player → Action Bermudes GridUpdate
eliminate updates player = do
  on_board (assign updates.move_origin free)
  on_board (assign updates.move_destination (color_for player))
  on_board (modify (opponent_loses_pawn player))
  modify (λ g. record g { last_move = some elimination })
  pure updates

unfoldable pub play_elimination : GridUpdate → AxisIterator → Action Bermudes GridUpdate
unfolding eliminate
play_elimination updates move = do
  player ← gets (λ g. g.current_player)
  distance ← lift (distance_from_destination move)
  guard (not (ltb_ℤ (negate distance) (pos 2)))
      (bad_coordinates (text "At least 1 square required between your pawn and the eliminated one"))
  reached ← check_free_trajectory move (pos 0)
  eliminate updates player

-- `playFlip` from the square before the destination on.
unfoldable pub flip_from : GridUpdate → Player → AxisIterator → Action Bermudes GridUpdate
flip_from updates player reached = do
  flipped_position ← lift (current_position reached)
  flipped_state ← on_board (square_at flipped_position)
  destination ← lift (move_forward reached)
  opponent_color ← lift (flip (color_for player))
  guard (square_eq flipped_state opponent_color)
      (bad_square_state (text "Flipped square isn't kept by an opponent pawn"))
  on_board (assign updates.move_origin free)
  on_board (assign flipped_position (color_for player))
  on_board (assign destination.1 (color_for player))
  on_board (modify (pawn_flipped player))
  modify (λ g. record g { last_move = some flipping })
  pure (record updates {
    updated_squares =
        updates.updated_squares
        ++ record { square = flipped_position; updated_state = color_for player } ∷ [];
  })

unfoldable pub play_flip : GridUpdate → AxisIterator → Action Bermudes GridUpdate
unfolding flip_from
play_flip updates move = do
  player ← gets (λ g. g.current_player)
  reached ← check_free_trajectory move (negsuc 0)
  flip_from updates player reached

unfoldable pub next_round_bermudes : Action Bermudes Player
next_round_bermudes = do modify (λ g. record g { last_move = none }); on_board next_round

abbrev pub is_round_terminated : Bermudes → Bool
is_round_terminated g = is_move g.last_move elimination

-- The move is chosen by what the destination holds.
unfoldable pub play_by_destination :
    Square → Square → GridUpdate → AxisIterator → Action Bermudes GridUpdate
unfolding play_flip play_elimination
play_by_destination state opponent_color updates move =
    if square_eq state free
    then play_flip updates move
    else if square_eq state opponent_color
    then play_elimination updates move
    else throw (bad_square_state (text "Movement destination cannot be one of your pawns"))

unfoldable pub play : Coordinates → Coordinates → Action Bermudes GridUpdate
unfolding play_by_destination
play from to = do
  player ← gets (λ g. g.current_player)
  grid ← gets (λ g. g.game_grid)
  move ← lift (new_axis true grid from to every_direction)
  state ← on_board (square_at from)
  guard (square_eq state (color_for player))
      (bad_square_state (text "Action target square must be kept by a pawn of current player"))
  destination_state ← on_board (square_at to)
  opponent_color ← lift (flip (color_for player))
  updates ←
      play_by_destination destination_state opponent_color
        (record { updated_squares = []; move_origin = from; move_destination = to }) move
  on_board moved
  pure updates
