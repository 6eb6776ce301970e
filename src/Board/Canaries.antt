-- ===== src/Board/Canaries.antt =====
-- minigames-services/src/Canaries.cpp and include/Minigames-Services/Canaries.hpp.
pub mod Play
use rp_t_minigames_server.Prelude.{
  ℕ, Bool, true, false, not, List, [], ◌∷◌, Option, none, some, text, if◌then◌else◌,
}
use rp_t_minigames_server.Prelude.Int.{ℤ, pos, negsuc, ◌+ℤ◌, negate, eqb_ℤ}
use rp_t_minigames_server.Outcome.{
  Result, ok, bad_square_state, bad_coordinates, bind, Action, pure, throw, lift, gets, modify,
  guard, zoom, ◌>>=◌, ◌>>◌,
}
use rp_t_minigames_server.Board.Grid.{
  Grid, Coordinates, Square, free, black, white, square_eq, flip, is_inside_grid, at,
}
use rp_t_minigames_server.Board.Axis.{
  AxisIterator, every_orthogonal_direction, new_axis, move_forward, distance_from_destination,
}
use rp_t_minigames_server.Board.Game.{
  Player, GridUpdate, BoardGame, color_for, new_board_game, moved, has_moved, victory_for,
  square_at, assign, opponent_loses_pawn,
}

pub record Canaries : Type 0 where
  pub board : BoardGame
  pub open board use *

abbrev pub on_board : {A : Type 0} → Action BoardGame A → Action Canaries A
on_board = zoom (λ g. g.board) (λ b g. record { board = b })

abbrev pub initial_grid : List (List Square)
initial_grid =
    (black ∷ black ∷ black ∷ black ∷ [])
    ∷ (black ∷ black ∷ black ∷ black ∷ [])
    ∷ (white ∷ white ∷ white ∷ white ∷ [])
    ∷ (white ∷ white ∷ white ∷ white ∷ [])
    ∷ []

unfoldable pub new_canaries : Result Canaries
new_canaries = bind (new_board_game initial_grid 8 8 2) (λ b. ok (record { board = b }))

unfoldable pub play_normal : GridUpdate → AxisIterator → Action Canaries GridUpdate
play_normal updates move = do
  forward ← lift (move_forward move)
  state ← on_board (square_at forward.1)
  guard (square_eq state free)
      (bad_square_state (text "Movement destination is kept by another pawn"))
  on_board (assign updates.move_origin free)
  player ← gets (λ g. g.current_player)
  on_board (assign forward.1 (color_for player))
  pure updates

unfoldable pub play_eat : GridUpdate → AxisIterator → Action Canaries GridUpdate
play_eat updates move = do
  player ← gets (λ g. g.current_player)
  over ← lift (move_forward move)
  over_state ← on_board (square_at over.1)
  guard (square_eq over_state (color_for player))
      (bad_square_state (text "Jumped over square doesn't contain one of your pawns"))
  eaten ← lift (move_forward over.0)
  eaten_state ← on_board (square_at eaten.1)
  opponent_color ← lift (flip (color_for player))
  guard (square_eq eaten_state opponent_color)
      (bad_square_state (text "Movement destination doesn't contain an opponent pawn to eat"))
  on_board (assign updates.move_origin free)
  on_board (assign eaten.1 (color_for player))
  on_board (modify (opponent_loses_pawn player))
  pure updates

-- A loop whose body may return false from the function, or go on.
unfoldable pub every {ℓ} : {A : Type ℓ} → (A → Result Bool) → List A → Result Bool
every f [] = ok true
every f (x ∷ xs) = bind (f x) (λ go_on. if go_on then every f xs else ok false)

abbrev pub orthogonal_vectors : List (ℤ × ℤ)
orthogonal_vectors = (pos 1, pos 0) ∷ (negsuc 0, pos 0) ∷ (pos 0, pos 1) ∷ (pos 0, negsuc 0) ∷ []

-- The test of a jump over a neighbour: each conjunct is read only if those before it hold.
unfoldable pub jump_eat_available : Grid → Square → Square → Coordinates → Result Bool
jump_eat_available grid player_color direct_neighbour after_neighbour =
    if square_eq direct_neighbour player_color
    then if is_inside_grid grid after_neighbour
      then bind (at grid after_neighbour) (λ state.
        bind (flip player_color) (λ opponent_color. ok (square_eq state opponent_color)))
      else ok false
    else ok false

-- The body of the loop over the directions: is there no move from a square this way?
unfoldable pub is_blocked_towards : Grid → Square → Coordinates → ℤ × ℤ → Result Bool
unfolding jump_eat_available
is_blocked_towards grid player_color square (line_offset, col_offset) =
    let neighbour : Coordinates = record {
      line = square.line +ℤ line_offset;
      column = square.column +ℤ col_offset;
    } in
    let after_neighbour : Coordinates = record {
      line = square.line +ℤ (line_offset +ℤ line_offset);
      column = square.column +ℤ (col_offset +ℤ col_offset);
    } in
    if is_inside_grid grid neighbour
    then bind (at grid neighbour) (λ direct_neighbour.
      if square_eq direct_neighbour free
      then ok false
      else bind (jump_eat_available grid player_color direct_neighbour after_neighbour)
          (λ available. ok (not available)))
    else ok true

unfoldable pub is_blocked_from : Grid → Square → Coordinates → Result Bool
unfolding every is_blocked_towards
is_blocked_from grid player_color square = bind (at grid square) (λ state.
    if square_eq state player_color
    then every (is_blocked_towards grid player_color square) orthogonal_vectors
    else ok true)

abbrev pub one_to_four : List ℤ
one_to_four = pos 1 ∷ pos 2 ∷ pos 3 ∷ pos 4 ∷ []

unfoldable pub is_blocked : Player → Canaries → Result Bool
unfolding is_blocked_from
is_blocked player g =
    every
      (λ line.
        every
          (λ column.
            is_blocked_from g.game_grid (color_for player)
              (record { line = line; column = column }))
          one_to_four)
      one_to_four

unfoldable pub victory_for_canaries : Canaries → Result (Option Player)
unfolding is_blocked
victory_for_canaries g = bind (is_blocked Player.white g) (λ white_blocked.
    if white_blocked
    then ok (some Player.black)
    else bind (is_blocked Player.black g) (λ black_blocked.
      if black_blocked then ok (some Player.white) else ok (victory_for g.board)))

abbrev pub is_round_terminated : Canaries → Bool
is_round_terminated g = has_moved g.board

-- `switch (move_range)`.
unfoldable pub play_by_range : ℤ → GridUpdate → AxisIterator → Action Canaries GridUpdate
unfolding play_normal play_eat
play_by_range move_range updates move =
    if eqb_ℤ move_range (pos 1)
    then play_normal updates move
    else if eqb_ℤ move_range (pos 2)
    then play_eat updates move
    else throw (bad_coordinates (text "Selected squares are too far, no available move"))

unfoldable pub play : Coordinates → Coordinates → Action Canaries GridUpdate
unfolding play_by_range
play from to = do
  grid ← gets (λ g. g.game_grid)
  move ← lift (new_axis true grid from to every_orthogonal_direction)
  state ← on_board (square_at from)
  player ← gets (λ g. g.current_player)
  guard (square_eq state (color_for player))
      (bad_square_state (text "Action target square must be kept by a pawn of current player"))
  distance ← lift (distance_from_destination move)
  updates ←
      play_by_range (negate distance)
        (record { updated_squares = []; move_origin = from; move_destination = to }) move
  on_board moved
  pure updates
