-- ===== src/Board/Axis/Constant.antt =====
-- The iterator over the squares of a grid that may not be written.
use rp_t_minigames_server.Prelude.{ℕ, ◌≡◌, sym, ap, true, false, List, text}
use rp_t_minigames_server.Outcome.{ok, err, out_of_range, bind-eq-ok, bad_mutable_flag}
use rp_t_minigames_server.Board.Grid.{Grid, Coordinates}
use rp_t_minigames_server.Board.Axis.{
  AxisType, AxisIterator, axis_between, initialize_axis, new_axis, current_position, move_forward,
}

held : {a b : AxisIterator} → ok a ≡ ok b → a ≡ b
held h = cc

-- An iterator that the constructor for constant grids has made keeps no square in the vector that
-- `current_position` reads: wherever it stands, the call throws, and so does a move for writing.
pub current_position-constant :
    (g : Grid) (from to : Coordinates) (allowed : List AxisType) (it : AxisIterator) (pos : ℕ)
    → new_axis false g from to allowed ≡ ok it
    → (current_position (record it { current_pos = pos })
        ≡ err (out_of_range (text "vector::_M_range_check")))
      × (move_forward (record it { current_pos = pos }) ≡ err (bad_mutable_flag true))
unfolding new_axis current_position move_forward
current_position-constant g from to allowed it pos e =
    let (d, between, e1) = bind-eq-ok (axis_between from to) _ e in
    let (x, init, e2) = bind-eq-ok (initialize_axis g from to allowed d) _ e1 in
    let made = held e2 in
    (
      ap (λ (j : AxisIterator). current_position (record j { current_pos = pos })) (sym made),
      ap (λ (j : AxisIterator). move_forward (record j { current_pos = pos })) (sym made),
    )
