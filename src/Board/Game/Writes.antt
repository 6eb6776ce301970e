-- ===== src/Board/Game/Writes.antt =====
-- Two and three writes to distinct squares of a valid grid, as the moves of the games make them, and
-- the invariant that the pawn counters are the numbers of pawns on the grid.
use rp_t_minigames_server.Prelude.{
  ℕ, ◌+◌, ◌*◌, ◌≤◌, ◌≡◌, sym, ◌∙◌, ◌≢◌, List, [], ◌∷◌, arith, length, ap,
}
use rp_t_minigames_server.Outcome.{ok}
use rp_t_minigames_server.Board.Grid.{Grid, Coordinates, Square, columns_of, at, write, put, free}
use rp_t_minigames_server.Board.Grid.Cells.{
  IsValid, AllWide, tally, count, count_line, count_lines, count-write, at-write_ne,
}
use rp_t_minigames_server.Board.Game.{BoardGame, Player, color_for, assign}

-- Squares in different states are different squares.
pub apart :
    (g : Grid) (p q : Coordinates) {a b : Square} → at g p ≡ ok a → at g q ≡ ok b → a ≢ b → p ≢ q
apart g p q hp hq ne e = ne (same-ok (sym hp ∙ ap (at g) e ∙ hq))
  where
    same-ok : {x y : Square} → ok x ≡ ok y → x ≡ y
    same-ok h = cc

pub put-ok :
    (g : Grid) (p : Coordinates) {a : Square} (v : Square)
    → at g p ≡ ok a
    → put g p v ≡ ok (write g p v)
unfolding put
put-ok g p v h = rw h

module _ (g : Grid) (o d : Coordinates) {a b : Square} (u v : Square) where
  pub second_held : at g o ≡ ok a → at g d ≡ ok b → a ≢ b → at (write g o u) d ≡ ok b
  second_held ho hd ne = at-write_ne g o d u ho (apart g o d ho hd ne) ∙ hd

  pub count-two :
      (c : Square)
      → at g o ≡ ok a
      → at g d ≡ ok b
      → a ≢ b
      → count c (write (write g o u) d v) + tally c a + tally c b
        ≡ count c g + tally c u + tally c v
  count-two c ho hd ne =
      omega (arith, count-write c g o u ho, count-write c (write g o u) d v (second_held ho hd ne))

module _ (g : Grid) (o s d : Coordinates) {a b e : Square} (u v w : Square) where
  pub third_held :
      at g o ≡ ok a
      → at g s ≡ ok b
      → at g d ≡ ok e
      → a ≢ b
      → a ≢ e
      → b ≢ e
      → at (write (write g o u) s v) d ≡ ok e
  third_held ho hs hd ab ae be =
      at-write_ne (write g o u) s d v (second_held g o s u v ho hs ab) (apart g s d hs hd be)
      ∙ second_held g o d u w ho hd ae

  pub count-three :
      (c : Square)
      → at g o ≡ ok a
      → at g s ≡ ok b
      → at g d ≡ ok e
      → a ≢ b
      → a ≢ e
      → b ≢ e
      → count c (write (write (write g o u) s v) d w) + tally c a + tally c b + tally c e
        ≡ count c g + tally c u + tally c v + tally c w
  count-three c ho hs hd ab ae be = omega (
    arith,
    count-two g o s u v c ho hs ab,
    count-write c (write (write g o u) s v) d w (third_held ho hs hd ab ae be),
  )

-- The counters are the numbers of pawns on a valid grid.
pub record Tallied (b : BoardGame) : Type 0 where
  pub valid : IsValid b.game_grid
  pub whites : b.white_pawns ≡ count Square.white b.game_grid
  pub blacks : b.black_pawns ≡ count Square.black b.game_grid

count_line-le : (c : Square) (line : List Square) → count_line c line ≤ length line
unfolding count_line
count_line-le c [] = omega arith
count_line-le c (x ∷ line) = ground (arith, count_line-le c line)

count_lines-le :
    (c : Square) (n : ℕ) (m : List (List Square))
    → n ≤ 26
    → AllWide n m
    → count_lines c m ≤ 26 * length m
unfolding count_lines
count_lines-le c n [] h a = omega arith
count_lines-le c n (x ∷ m) h a = omega (arith, count_lines-le c n m h a.1, count_line-le c x, a.0)

-- So a counter is far from the bounds of `unsigned int`.
pub count-le : (c : Square) (g : Grid) → IsValid g → count c g ≤ 676
unfolding count
count-le c g v = omega (
  arith,
  count_lines-le c (columns_of g.squares_matrix) g.squares_matrix v.few_columns v.rectangular,
  v.few_lines,
)

pub count-pos :
    (player : Player) (g : Grid) (p : Coordinates)
    → at g p ≡ ok (color_for player)
    → 1 ≤ count (color_for player) g
count-pos Player.white g p h = omega (arith, count-write Square.white g p free h)
count-pos Player.black g p h = omega (arith, count-write Square.black g p free h)

-- An assignment to a square that can be read.
pub assign-ok :
    (b : BoardGame) (p : Coordinates) {a : Square} (v : Square)
    → at b.game_grid p ≡ ok a
    → assign p v b ≡ (ok tt, record b { game_grid = write b.game_grid p v })
assign-ok b p v h = rw (put-ok b.game_grid p v h)
