-- ===== src/Board/Grid.antt =====
-- minigames-services/src/Grid.cpp and include/Minigames-Services/Grid.hpp. A `Square&` into a grid is
-- modelled by its coordinates: it is read by `at` and written by `put`.
pub mod Cells
pub mod Shape
use rp_t_minigames_server.Prelude.{
  ℕ, zero, suc, ◌-◌, Bool, true, false, not, ◌&&◌, ◌||◌, List, [], ◌∷◌, Option, none, some, text,
  ltb, ◌==◌, if◌then◌else◌, length, get_elem?, set, is_empty,
}
use rp_t_minigames_server.Prelude.Int.{ℤ, pos, pos_part, ltb_ℤ, leb_ℤ, eqb_ℤ}
use rp_t_minigames_server.Outcome.{
  Result, ok, err, bad_square_state, bad_dimensions, bad_coordinates, out_of_range, bind, check,
}

pub record Coordinates : Type 0 where
  pub line : ℤ
  pub column : ℤ

abbrev pub coordinates_eq : Coordinates → Coordinates → Bool
coordinates_eq a b = eqb_ℤ a.line b.line && eqb_ℤ a.column b.column

pub data Square : Type 0 where
  free black white : Square

abbrev pub square_eq : Square → Square → Bool
square_eq free free = true
square_eq free black = false
square_eq free white = false
square_eq black free = false
square_eq black black = true
square_eq black white = false
square_eq white free = false
square_eq white black = false
square_eq white white = true

unfoldable pub flip : Square → Result Square
flip black = ok white
flip white = ok black
flip free = err (bad_square_state (text "Flippable only if it is kept by a player"))

pub record Grid : Type 0 where
  pub squares_matrix : List (List Square)

-- The constructor's loop over the lines, with the lines pushed so far in front of the result.
unfoldable pub push_lines : ℕ → List (List Square) → Result (List (List Square))
push_lines expected [] = ok []
push_lines expected (line ∷ lines) =
    bind
      (check (length line == expected)
        (bad_dimensions (text "Every line must have the same number of columns")))
      (λ _. bind (push_lines expected lines) (λ rest. ok (line ∷ rest)))

-- `squares_matrix_.at(0).size()`; the constructor leaves no grid without a line.
abbrev pub columns_of : List (List Square) → ℕ
columns_of [] = 0
columns_of (line ∷ lines) = length line

unfoldable pub new_grid : List (List Square) → Result Grid
unfolding push_lines
new_grid conf =
    bind
      (check (not (is_empty conf || (columns_of conf == 0)))
        (bad_dimensions (text "Zero dimension for height or width isn't allowed")))
      (λ _.
        bind
          (check (not (ltb 26 (length conf) || ltb 26 (columns_of conf)))
            (bad_dimensions (text "A grid dimension cannot exceed 26")))
          (λ _.
            bind (push_lines (columns_of conf) conf)
              (λ lines. ok (record { squares_matrix = lines }))))

-- The sizes are at most 26, so that their conversion to `int` keeps them.
unfoldable pub is_inside_grid : Grid → Coordinates → Bool
is_inside_grid g coords =
    ltb_ℤ (pos 0) coords.line
    && leb_ℤ coords.line (pos (length g.squares_matrix))
    && ltb_ℤ (pos 0) coords.column
    && leb_ℤ coords.column (pos (columns_of g.squares_matrix))

-- `.at(i)` of a vector.
abbrev pub at_index {ℓ} : {A : Type ℓ} → List A → ℕ → Result A
at_index xs i = elim (get_elem? xs i) [
  | none ↦ err (out_of_range (text "vector::_M_range_check"))
  | some x ↦ ok x
]

-- `squares_matrix_.at(i).at(j)`.
unfoldable pub cell : List (List Square) → ℕ → ℕ → Result Square
cell m i j = bind (at_index m i) (λ line. at_index line j)

-- `operator[]`, read.
unfoldable pub at : Grid → Coordinates → Result Square
at g coords =
    if is_inside_grid g coords
    then cell g.squares_matrix (pos_part coords.line - 1) (pos_part coords.column - 1)
    else err (bad_coordinates (text "These coordinates aren't inside grid"))

-- The matrix after an assignment through a reference to one of its squares.
unfoldable pub set_cell : List (List Square) → ℕ → ℕ → Square → List (List Square)
set_cell [] i j state = []
set_cell (line ∷ m) zero j state = set line j state ∷ m
set_cell (line ∷ m) (suc i) j state = line ∷ set_cell m i j state

unfoldable pub write : Grid → Coordinates → Square → Grid
write g coords state = record {
  squares_matrix =
      set_cell g.squares_matrix (pos_part coords.line - 1) (pos_part coords.column - 1) state;
}

-- `operator[]`, assigned to.
unfoldable pub put : Grid → Coordinates → Square → Result Grid
put g coords state = bind (at g coords) (λ _. ok (write g coords state))
