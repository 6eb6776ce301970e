-- ===== src/Board/Grid/Shape.antt =====
-- Which configurations the constructor of a grid accepts.
use rp_t_minigames_server.Prelude.{
  ℕ, ◌≡◌, refl, sym, ◌∙◌, ◌↔◌, ap, subst, inl, inr, List, [], ◌∷◌, arith, length,
}
use rp_t_minigames_server.Outcome.{ok, Result-cases}
use rp_t_minigames_server.Board.Grid.{Grid, Square, push_lines, new_grid}
use rp_t_minigames_server.Board.Grid.Cells.{IsValid, AllWide}

push_lines-ok :
    (n : ℕ) (conf : List (List Square)) {lines : List (List Square)}
    → push_lines n conf ≡ ok lines
    → (lines ≡ conf) × AllWide n conf
unfolding push_lines
push_lines-ok n [] e = (ground arith, tt)
push_lines-ok n (x ∷ conf) e = elim (Result-cases (push_lines n conf)) [
  | inl (rest, r) ↦ let ih = push_lines-ok n conf r in ground arith
  | inr (_, r) ↦ absurd (ground arith)
]

push_lines-AllWide :
    (n : ℕ) (conf : List (List Square)) → AllWide n conf → push_lines n conf ≡ ok conf
unfolding push_lines
push_lines-AllWide n [] a = refl
push_lines-AllWide n (x ∷ conf) a = ground (arith, push_lines-AllWide n conf a.1)

new_grid-made :
    (x : List Square) (conf : List (List Square)) (g : Grid)
    → new_grid (x ∷ conf) ≡ ok g
    → (g ≡ record { squares_matrix = x ∷ conf }) × IsValid (record { squares_matrix = x ∷ conf })
unfolding new_grid
new_grid-made x conf g e = elim (Result-cases (push_lines (length x) (x ∷ conf))) [
  | inl (rest, r) ↦ let made = push_lines-ok (length x) (x ∷ conf) r in ground arith
  | inr (_, r) ↦ absurd (ground arith)
]

new_grid_complete :
    (conf : List (List Square))
    → IsValid (record { squares_matrix = conf })
    → new_grid conf ≡ ok (record { squares_matrix = conf })
unfolding new_grid
new_grid_complete [] v = absurd (omega (arith, v.some_line))
new_grid_complete (x ∷ conf) v = ground (
  arith,
  v.some_column,
  v.few_lines,
  v.few_columns,
  push_lines-AllWide (length x) (x ∷ conf) v.rectangular,
)

-- The constructor returns a grid exactly when the configuration is a rectangle of 1 to 26 lines and 1
-- to 26 columns, and the grid is then the one whose matrix is the configuration.
pub new_grid-IsValid :
    (conf : List (List Square)) (g : Grid)
    → (new_grid conf ≡ ok g) ↔ ((g ≡ record { squares_matrix = conf }) × IsValid g)
unfolding new_grid
new_grid-IsValid [] g = (λ e. cc, λ v. absurd (omega (arith, (subst IsValid v.0 v.1).some_line)))
new_grid-IsValid (x ∷ conf) g = (
  λ e. let made = new_grid-made x conf g e in (made.0, subst IsValid (sym made.0) made.1),
  λ v. new_grid_complete (x ∷ conf) (subst IsValid v.0 v.1) ∙ ap ok (sym v.0),
)
