-- ===== src/Board/Grid/Cells.antt =====
-- The squares of a valid grid: what a write changes, and how it changes the number of pawns.
use rp_t_minigames_server.Prelude.{
  ℕ, zero, suc, ◌+◌, ◌-◌, ◌≤◌, ◌<◌, ◌≡◌, refl, ◌≢◌, ◌∙◌, ◌⊎◌, inl, inr, true, List, [], ◌∷◌, some,
  arith, if◌then◌else◌, length, get_elem?, set, length-set, get_elem?-set_self, get_elem?-set_ne,
  get_elem?-lt, Bool-cases, ==→≡, ==→≢, ◌==◌,
}
use rp_t_minigames_server.Prelude.Int.{pos_part, neg_part, eq_of_parts}
use rp_t_minigames_server.Outcome.{ok}
use rp_t_minigames_server.Board.Grid.{
  Grid, Coordinates, Square, square_eq, columns_of, is_inside_grid, at_index, cell, set_cell, at,
  write,
}

abbrev pub AllWide : ℕ → List (List Square) → Type 0
AllWide n [] = Unit {0}
AllWide n (line ∷ lines) = (length line ≡ n) × AllWide n lines

-- Between 1 and 26 lines, all of one width between 1 and 26.
pub record IsValid (g : Grid) : Type 0 where
  pub some_line : 0 < length g.squares_matrix
  pub few_lines : length g.squares_matrix ≤ 26
  pub some_column : 0 < columns_of g.squares_matrix
  pub few_columns : columns_of g.squares_matrix ≤ 26
  pub rectangular : AllWide (columns_of g.squares_matrix) g.squares_matrix

-- How many squares of a line, and of a matrix, have a state.
abbrev pub tally : Square → Square → ℕ
tally c s = if square_eq c s then 1 else 0

unfoldable pub count_line : Square → List Square → ℕ
count_line c [] = 0
count_line c (s ∷ line) = tally c s + count_line c line

unfoldable pub count_lines : Square → List (List Square) → ℕ
count_lines c [] = 0
count_lines c (line ∷ lines) = count_line c line + count_lines c lines

unfoldable pub count : Square → Grid → ℕ
unfolding count_line count_lines
count c g = count_lines c g.squares_matrix

pub at_index-eq {ℓ} :
    {A : Type ℓ} (xs : List A) (i : ℕ) {x : A} → at_index xs i ≡ ok x → get_elem? xs i ≡ some x
at_index-eq xs i e = ground arith

count_line-set :
    (c : Square) (line : List Square) (j : ℕ) {s : Square} (v : Square)
    → get_elem? line j ≡ some s
    → count_line c (set line j v) + tally c s ≡ count_line c line + tally c v
unfolding count_line
count_line-set c [] j v e = cc
count_line-set c (x ∷ line) zero {s} v e =
    let same : tally c x ≡ tally c s = cc in omega (arith, same)
count_line-set c (x ∷ line) (suc j) v e = omega (arith, count_line-set c line j v e)

count_lines-set_cell :
    (c : Square) (m : List (List Square)) (i j : ℕ) {s : Square} (v : Square)
    → cell m i j ≡ ok s
    → count_lines c (set_cell m i j v) + tally c s ≡ count_lines c m + tally c v
unfolding count_lines cell set_cell
count_lines-set_cell c [] i j v e = cc
count_lines-set_cell c (x ∷ m) zero j v e =
    omega (arith, count_line-set c x j v (at_index-eq x j e))
count_lines-set_cell c (x ∷ m) (suc i) j v e = omega (arith, count_lines-set_cell c m i j v e)

-- A readable square is inside the grid, and stands in the matrix.
pub at-cell :
    (g : Grid) (p : Coordinates) {s : Square}
    → at g p ≡ ok s
    → (is_inside_grid g p ≡ true)
      × (cell g.squares_matrix (pos_part p.line - 1) (pos_part p.column - 1) ≡ ok s)
unfolding at
at-cell g p e = ground arith

-- A write moves one square from the tally of its old state to that of its new one.
pub count-write :
    (c : Square) (g : Grid) (p : Coordinates) {s : Square} (v : Square)
    → at g p ≡ ok s
    → count c (write g p v) + tally c s ≡ count c g + tally c v
unfolding count write
count-write c g p v e =
    count_lines-set_cell c g.squares_matrix (pos_part p.line - 1) (pos_part p.column - 1) v
      (at-cell g p e).1

length-set_cell :
    (m : List (List Square)) (i j : ℕ) (v : Square) → length (set_cell m i j v) ≡ length m
unfolding set_cell
length-set_cell [] i j v = refl
length-set_cell (x ∷ m) zero j v = refl
length-set_cell (x ∷ m) (suc i) j v = omega (arith, length-set_cell m i j v)

columns-set_cell :
    (m : List (List Square)) (i j : ℕ) (v : Square) → columns_of (set_cell m i j v) ≡ columns_of m
unfolding set_cell
columns-set_cell [] i j v = refl
columns-set_cell (x ∷ m) zero j v = length-set x j v
columns-set_cell (x ∷ m) (suc i) j v = refl

AllWide-set_cell :
    (n : ℕ) (m : List (List Square)) (i j : ℕ) (v : Square)
    → AllWide n m
    → AllWide n (set_cell m i j v)
unfolding set_cell
AllWide-set_cell n [] i j v a = tt
AllWide-set_cell n (x ∷ m) zero j v a = (length-set x j v ∙ a.0, a.1)
AllWide-set_cell n (x ∷ m) (suc i) j v a = (a.0, AllWide-set_cell n m i j v a.1)

cell-set_cell_self :
    (m : List (List Square)) (i j : ℕ) {s : Square} (v : Square)
    → cell m i j ≡ ok s
    → cell (set_cell m i j v) i j ≡ ok v
unfolding cell set_cell
cell-set_cell_self [] i j v e = cc
cell-set_cell_self (x ∷ m) zero j v e =
    let here = get_elem?-set_self x j v (get_elem?-lt x j (at_index-eq x j e)) in
    ground (arith, here)
cell-set_cell_self (x ∷ m) (suc i) j v e = cell-set_cell_self m i j v e

cell-set_cell_ne :
    (m : List (List Square)) (i j i' j' : ℕ) (v : Square)
    → ((i ≢ i') ⊎ (j ≢ j'))
    → cell (set_cell m i j v) i' j' ≡ cell m i' j'
unfolding cell set_cell
cell-set_cell_ne [] i j i' j' v ne = refl
cell-set_cell_ne (x ∷ m) zero j zero j' v (inl ne) = absurd (ne refl)
cell-set_cell_ne (x ∷ m) zero j zero j' v (inr ne) =
    ground (arith, get_elem?-set_ne x {i = j} {j = j'} v ne)
cell-set_cell_ne (x ∷ m) zero j (suc i') j' v ne = refl
cell-set_cell_ne (x ∷ m) (suc i) j zero j' v ne = refl
cell-set_cell_ne (x ∷ m) (suc i) j (suc i') j' v ne =
    cell-set_cell_ne m i j i' j' v (elim ne [ inl h ↦ inl (λ e. h (omega arith)) | inr h ↦ inr h ])

-- A write keeps the shape of the grid.
pub inside-write :
    (g : Grid) (p q : Coordinates) (v : Square)
    → is_inside_grid (write g p v) q ≡ is_inside_grid g q
unfolding is_inside_grid write
inside-write g p q v =
    let i = pos_part p.line - 1 in
    let j = pos_part p.column - 1 in
    rw (length-set_cell g.squares_matrix i j v, columns-set_cell g.squares_matrix i j v)

pub write-IsValid : (g : Grid) (p : Coordinates) (v : Square) → IsValid g → IsValid (write g p v)
unfolding write
write-IsValid g p v valid =
    let i = pos_part p.line - 1 in
    let j = pos_part p.column - 1 in
    let m = g.squares_matrix in
    let lines = length-set_cell m i j v in
    let columns = columns-set_cell m i j v in
    record {
      some_line = rw lines valid.some_line;
      few_lines = rw lines valid.few_lines;
      some_column = rw columns valid.some_column;
      few_columns = rw columns valid.few_columns;
      rectangular = rw columns (AllWide-set_cell (columns_of m) m i j v valid.rectangular);
    }

pub Coordinates-eq : (p q : Coordinates) → p.line ≡ q.line → p.column ≡ q.column → p ≡ q
Coordinates-eq p q l c = λ i. record { line = l i; column = c i }

-- What the test says: both numbers lie between 1 and the size.
pub record Between (p : Coordinates) (lines columns : ℕ) : Type 0 where
  pub line_nonneg : neg_part p.line ≡ 0
  pub line_pos : 0 < pos_part p.line
  pub line_le : pos_part p.line ≤ lines
  pub column_nonneg : neg_part p.column ≡ 0
  pub column_pos : 0 < pos_part p.column
  pub column_le : pos_part p.column ≤ columns

pub inside-Between :
    (g : Grid) (p : Coordinates)
    → is_inside_grid g p ≡ true
    → Between p (length g.squares_matrix) (columns_of g.squares_matrix)
unfolding is_inside_grid
inside-Between g p e = ground arith

-- Two squares inside a grid that have the same indexes are one.
indexes_apart :
    (g : Grid) (p q : Coordinates)
    → is_inside_grid g p ≡ true
    → is_inside_grid g q ≡ true
    → p ≢ q
    → (pos_part p.line - 1 ≢ pos_part q.line - 1) ⊎ (pos_part p.column - 1 ≢ pos_part q.column - 1)
indexes_apart g p q ip iq ne =
    let a = inside-Between g p ip in
    let b = inside-Between g q iq in
    elim (Bool-cases ((pos_part p.line - 1) == (pos_part q.line - 1))) [
      | inr lines ↦ inl (==→≢ _ _ lines)
      | inl lines ↦ inr λ columns. ne (
          Coordinates-eq p q (eq_of_parts p.line q.line (omega (arith, ==→≡ _ _ lines)))
            (eq_of_parts p.column q.column (omega arith)))
    ]

-- The written square has the new state.
pub at-write_self :
    (g : Grid) (p : Coordinates) {s : Square} (v : Square)
    → at g p ≡ ok s
    → at (write g p v) p ≡ ok v
unfolding at write
at-write_self g p v e =
    let held = at-cell g p e in
    let i = pos_part p.line - 1 in
    let j = pos_part p.column - 1 in
    ground (arith, inside-write g p p v, cell-set_cell_self g.squares_matrix i j v held.1, held.0)

-- Every other square keeps its own.
pub at-write_ne :
    (g : Grid) (p q : Coordinates) {s : Square} (v : Square)
    → at g p ≡ ok s
    → p ≢ q
    → at (write g p v) q ≡ at g q
unfolding at
at-write_ne g p q v e ne = elim (Bool-cases (is_inside_grid g q)) [
  | inl iq ↦
      let apart = indexes_apart g p q (at-cell g p e).0 iq ne in
      rw (inside-write g p q v, iq)
        (unfold write in
          cell-set_cell_ne g.squares_matrix (pos_part p.line - 1) (pos_part p.column - 1)
            (pos_part q.line - 1) (pos_part q.column - 1) v apart)
  | inr oq ↦ rw (inside-write g p q v, oq)
]
