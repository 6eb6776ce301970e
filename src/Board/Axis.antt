-- ===== src/Board/Axis.antt =====
-- minigames-services/src/AxisIterator.cpp and include/Minigames-Services/AxisIterator.hpp.
-- The elements of an axis are references to squares, modelled by the coordinates. The coordinates
-- are unbounded integers here; the source subtracts two `int`s before it tests them.
pub mod Found
pub mod Constant
pub mod Signs
pub mod Reach
pub mod Lines
use Prim.Native.Nat.{bit_and, bit_or}
use rp_t_minigames_server.Prelude.{
  ℕ, zero, suc, ◌+◌, ◌-◌, ◌%◌, ◌^◌, Bool, true, false, not, ◌&&◌, List, [], ◌∷◌, Option, none, some,
  text, ltb, ◌==◌, if◌then◌else◌, length,
}
use rp_t_minigames_server.Prelude.Int.{
  ℤ, pos, negsuc, ◌+ℤ◌, ◌-ℤ◌, ltb_ℤ, leb_ℤ, eqb_ℤ, negate, to_int,
}
use rp_t_minigames_server.Outcome.{
  Result, ok, err, bad_coordinates, bad_mutable_flag, assertion_failed, undefined_behaviour,
  unfinished, bind, check,
}
use rp_t_minigames_server.Board.Grid.{
  Grid, Coordinates, coordinates_eq, is_inside_grid, at_index, columns_of,
}

-- The values of the enumeration are its flags; 0 is no enumerator, and stands for no direction.
abbrev pub AxisType : Type 0
AxisType = ℕ

abbrev pub up : AxisType
up = 8

abbrev pub down : AxisType
down = 4

abbrev pub left : AxisType
left = 2

abbrev pub right : AxisType
right = 1

abbrev pub up_left : AxisType
up_left = bit_or up left

abbrev pub down_right : AxisType
down_right = bit_or down right

abbrev pub up_right : AxisType
up_right = bit_or up right

abbrev pub down_left : AxisType
down_left = bit_or down left

abbrev pub every_direction : List AxisType
every_direction = up ∷ down ∷ left ∷ right ∷ up_left ∷ down_right ∷ up_right ∷ down_left ∷ []

abbrev pub every_orthogonal_direction : List AxisType
every_orthogonal_direction = up ∷ down ∷ left ∷ right ∷ []

abbrev pub every_diagonal_direction : List AxisType
every_diagonal_direction = up_left ∷ down_right ∷ up_right ∷ down_left ∷ []

unfoldable pub has_flag_of : AxisType → AxisType → Bool
has_flag_of axis direction = not (bit_and axis direction == 0)

pub record DirectionVector : Type 0 where
  pub x : ℤ
  pub y : ℤ

unfoldable pub moves : DirectionVector → Coordinates → Coordinates
moves v from = record { line = from.line +ℤ v.y; column = from.column +ℤ v.x }

unfoldable pub direction_for : AxisType → DirectionVector
unfolding has_flag_of
direction_for axis = record {
  x = if has_flag_of axis left then negsuc 0 else if has_flag_of axis right then pos 1 else pos 0;
  y = if has_flag_of axis up then negsuc 0 else if has_flag_of axis down then pos 1 else pos 0;
}

abbrev pub abs : ℤ → ℤ
abs x = if leb_ℤ (pos 0) x then x else negate x

unfoldable pub axis_flags : ℤ → ℤ → AxisType
axis_flags relative_x relative_y =
    let horizontal =
      if ltb_ℤ (pos 0) relative_x
      then bit_or 0 right
      else if ltb_ℤ relative_x (pos 0)
      then bit_or 0 left
      else 0 in
    if ltb_ℤ (pos 0) relative_y
    then bit_or horizontal down
    else if ltb_ℤ relative_y (pos 0)
    then bit_or horizontal up
    else horizontal

unfoldable pub axis_between : Coordinates → Coordinates → Result AxisType
unfolding axis_flags
axis_between from to =
    let relative_x = to.column -ℤ from.column in
    let relative_y = to.line -ℤ from.line in
    if not (eqb_ℤ (abs relative_x) (abs relative_y))
      && not (eqb_ℤ relative_x (pos 0))
      && not (eqb_ℤ relative_y (pos 0))
    then err (bad_coordinates (text "No orthogonal or diagonal axis linking these two squares"))
    else ok (axis_flags relative_x relative_y)

-- `destination_pos` is unset until the scan of the axis meets the destination.
pub record AxisIterator : Type 0 where
  pub mutable_grid : Bool
  pub direction : AxisType
  pub axis : List Coordinates
  pub const_axis : List Coordinates
  pub current_pos : ℕ
  pub destination_pos : Option ℕ

-- The loop of `initializeAxis`, with the squares that it appends and the destination's position.
unfoldable pub scan :
    ℕ
    → Grid
    → DirectionVector
    → Coordinates
    → Coordinates
    → ℕ
    → Option ℕ
    → Result (List Coordinates × Option ℕ)
scan zero g v to square scan_pos destination = err unfinished
scan (suc fuel) g v to square scan_pos destination = elim (is_inside_grid g square) [
  | false ↦ ok ([], destination)
  | true ↦
      let met = coordinates_eq square to in
      bind (check (not (met && (scan_pos == 0))) assertion_failed) (λ _.
        bind
          (scan fuel g v to (moves v square) (scan_pos + 1)
            (if met then some scan_pos else destination))
          (λ rest. ok (square ∷ rest.0, rest.1)))
]

-- `std::find(...) != end`.
unfoldable pub is_allowed : AxisType → List AxisType → Bool
is_allowed d [] = false
is_allowed d (a ∷ allowed) = if a == d then true else is_allowed d allowed

-- No axis of a grid is longer than its lines and columns together.
abbrev pub scan_fuel : Grid → ℕ
scan_fuel g = length g.squares_matrix + columns_of g.squares_matrix + 1

unfoldable pub initialize_axis :
    Grid
    → Coordinates
    → Coordinates
    → List AxisType
    → AxisType
    → Result (List Coordinates × Option ℕ)
unfolding scan is_allowed
initialize_axis g from to allowed direction =
    bind
      (check (is_inside_grid g from && is_inside_grid g to)
        (bad_coordinates (text "Both of the two squares forming the axis must be inside grid")))
      (λ _.
        bind
          (check (is_allowed direction allowed)
            (bad_coordinates (text "Direction between origin and destination isn't allowed")))
          (λ _. scan (scan_fuel g) g (direction_for direction) to from 0 none))

-- The two constructors: on a grid that may be written, and on a constant one.
unfoldable pub new_axis :
    Bool → Grid → Coordinates → Coordinates → List AxisType → Result AxisIterator
unfolding axis_between initialize_axis
new_axis writable g from to allowed = bind (axis_between from to) (λ direction.
    bind (initialize_axis g from to allowed direction) (λ squares. ok (record {
      mutable_grid = writable;
      direction = direction;
      axis = if writable then squares.0 else [];
      const_axis = if writable then [] else squares.0;
      current_pos = 0;
      destination_pos = squares.1;
    })))

unfoldable pub current_position : AxisIterator → Result Coordinates
current_position it = at_index it.axis it.current_pos

unfoldable pub has_next : AxisIterator → Bool
has_next it =
    let elements_count = if it.mutable_grid then length it.axis else length it.const_axis in
    ltb (it.current_pos + 1) elements_count

-- The difference of two `std::size_t`s, wrapped, and cast to `int`.
unfoldable pub distance_from_destination : AxisIterator → Result ℤ
distance_from_destination it = elim it.destination_pos [
  | none ↦ err undefined_behaviour
  | some destination ↦ ok (to_int ((it.current_pos + 2 ^ 64 - destination) % 2 ^ 64))
]

-- The iterator after the move, and the square that it refers to.
unfoldable pub move_forward : AxisIterator → Result (AxisIterator × Coordinates)
unfolding has_next
move_forward it = bind (check it.mutable_grid (bad_mutable_flag true)) (λ _.
    bind (check (has_next it) (bad_coordinates (text "End of axis reached"))) (λ _.
      let it' = record it { current_pos = it.current_pos + 1 } in
      bind (at_index it'.axis it'.current_pos) (λ square. ok (it', square))))

unfoldable pub move_forward_immutable : AxisIterator → Result (AxisIterator × Coordinates)
unfolding has_next
move_forward_immutable it = bind (check (not it.mutable_grid) (bad_mutable_flag false)) (λ _.
    bind (check (has_next it) (bad_coordinates (text "End of axis reached"))) (λ _.
      let it' = record it { current_pos = it.current_pos + 1 } in
      bind (at_index it'.const_axis it'.current_pos) (λ square. ok (it', square))))
