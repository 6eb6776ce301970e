-- ===== src/Board/Acores.antt =====
-- minigames-services/src/Acores.cpp and include/Minigames-Services/Acores.hpp.
pub mod Play
use rp_t_minigames_server.Prelude.{
  ℕ, Bool, true, false, not, List, [], ◌∷◌, ◌++◌, Option, none, some, text, if◌then◌else◌,
}
use rp_t_minigames_server.Prelude.Int.{ℤ, pos, negate, eqb_ℤ}
use rp_t_minigames_server.Outcome.{
  Result, ok, bad_square_state, bad_coordinates, bind, Action, pure, throw, lift, gets, modify,
  guard, zoom, ◌>>=◌, ◌>>◌,
}
use rp_t_minigames_server.Board.Grid.{Coordinates, Square, free, black, white, square_eq, flip}
use rp_t_minigames_server.Board.Axis.{
  AxisIterator, every_direction, new_axis, move_forward, current_position,
  distance_from_destination,
}
use rp_t_minigames_server.Board.Game.{
  Player, GridUpdate, BoardGame, color_for, new_board_game, next_round, moved, square_at, assign,
  opponent_loses_pawn,
}

pub data Move : Type 0 where
  normal jump : Move

abbrev pub is_move : Option Move → Move → Bool
is_move none m = false
is_move (some normal) normal = true
is_move (some normal) jump = false
is_move (some jump) normal = false
is_move (some jump) jump = true

pub record Acores : Type 0 where
  pub board : BoardGame
  pub open board use *
  pub last_move : Option Move

abbrev pub on_board : {A : Type 0} → Action BoardGame A → Action Acores A
on_board = zoom (λ g. g.board) (λ b g. record g { board = b })

abbrev pub initial_grid : List (List Square)
initial_grid =
    (white ∷ white ∷ white ∷ black ∷ black ∷ [])
    ∷ (white ∷ white ∷ white ∷ black ∷ black ∷ [])
    ∷ (white ∷ white ∷ free ∷ black ∷ black ∷ [])
    ∷ (white ∷ white ∷ black ∷ black ∷ black ∷ [])
    ∷ (white ∷ white ∷ black ∷ black ∷ black ∷ [])
    ∷ []

unfoldable pub new_acores : Result Acores
new_acores =
    bind (new_board_game initial_grid 12 12 1) (λ b. ok (record { board = b; last_move = none }))

unfoldable pub play_normal : GridUpdate → AxisIterator → Action Acores GridUpdate
play_normal updates move = do
  last ← gets (λ g. g.last_move)
  guard (not (is_move last jump))
      (bad_coordinates (text "Normal move isn't available after a jump"))
  forward ← lift (move_forward move)
  state ← on_board (square_at forward.1)
  guard (square_eq state free)
      (bad_square_state (text "Movement destination is kept by another pawn"))
  on_board (assign updates.move_origin free)
  player ← gets (λ g. g.current_player)
  on_board (assign forward.1 (color_for player))
  modify (λ g. record g { last_move = some normal })
  pure updates

unfoldable pub play_jump : GridUpdate → AxisIterator → Action Acores GridUpdate
play_jump updates move = do
  player ← gets (λ g. g.current_player)
  skipped ← lift (move_forward move)
  skipped_position ← lift (current_position skipped.0)
  skipped_state ← on_board (square_at skipped.1)
  opponent_color ← lift (flip (color_for player))
  guard (square_eq skipped_state opponent_color)
      (bad_square_state (text "Jumped square must contains a pawn of opponent color"))
  landing ← lift (move_forward skipped.0)
  landing_state ← on_board (square_at landing.1)
  guard (square_eq landing_state free)
      (bad_square_state (text "Movement destination is kept by another pawn"))
  on_board (assign updates.move_origin free)
  on_board (assign skipped.1 free)
  on_board (assign updates.move_destination (color_for player))
  on_board (modify (opponent_loses_pawn player))
  modify (λ g. record g { last_move = some jump })
  pure (record updates {
    updated_squares =
        updates.updated_squares ++ record { square = skipped_position; updated_state = free } ∷ [];
  })

unfoldable pub next_round_acores : Action Acores Player
next_round_acores = do modify (λ g. record g { last_move = none }); on_board next_round

abbrev pub is_round_terminated : Acores → Bool
is_round_terminated g = is_move g.last_move normal

-- `switch (move_range)`.
unfoldable pub play_by_range : ℤ → GridUpdate → AxisIterator → Action Acores GridUpdate
unfolding play_normal play_jump
play_by_range move_range updates move =
    if eqb_ℤ move_range (pos 1)
    then play_normal updates move
    else if eqb_ℤ move_range (pos 2)
    then play_jump updates move
    else throw (bad_coordinates (text "Selected squares are too far, no available move"))

unfoldable pub play : Coordinates → Coordinates → Action Acores GridUpdate
unfolding play_by_range
play from to = do
  grid ← gets (λ g. g.game_grid)
  move ← lift (new_axis true grid from to every_direction)
  state ← on_board (square_at from)
  player ← gets (λ g. g.current_player)
  guard (square_eq state (color_for player))
      (bad_square_state (text "Action target square must be kept by a pawn of current player"))
  distance ← lift (distance_from_destination move)
  updates ←
      play_by_range (negate distance)
        (record { updated_squares = []; move_origin = from; move_destination = to }) move
  on_board moved
  pure updates
