-- ===== src/Board/Axis/Reach.antt =====
-- The scan of an axis ends by itself, with the destination at its distance from the origin.
use rp_t_minigames_server.Prelude.{
  ℕ, zero, suc, ◌+◌, ◌≤◌, ◌<◌, ◌≡◌, ◌≢◌, ◌⊎◌, inl, inr, refl, sym, ◌∙◌, ap, subst, arith, true,
  false, Bool, Bool-cases, ◌==◌, ◌&&◌, if◌then◌else◌, List, [], ◌∷◌, Option, some, length,
}
use rp_t_minigames_server.Prelude.Int.{ℤ, pos, negsuc}
use rp_t_minigames_server.Outcome.{ok}
use rp_t_minigames_server.Board.Grid.{Grid, Coordinates, coordinates_eq, is_inside_grid, columns_of}
use rp_t_minigames_server.Board.Axis.{DirectionVector, moves, scan}
use rp_t_minigames_server.Board.Axis.Found.{coordinates_eq_sound}
use rp_t_minigames_server.Board.Axis.Signs.{
  Sign, minus, level, plus, left_over, left_over-step, vector,
}

-- A square by its line and column.
abbrev pub square : ℕ → ℕ → Coordinates
square a b = record { line = pos a; column = pos b }

-- The squares of a grid.
abbrev pub InRange : Grid → ℕ → ℕ → Type 0
InRange g a b =
    (0 < a) × (a ≤ length g.squares_matrix) × (0 < b) × (b ≤ columns_of g.squares_matrix)

pub InRange-inside : (g : Grid) (a b : ℕ) → InRange g a b → is_inside_grid g (square a b) ≡ true
unfolding is_inside_grid
InRange-inside g a b r = ground (arith, r.0, r.1, r.2, r.3)

inside-square :
    (g : Grid) (l c : ℤ)
    → is_inside_grid g (record { line = l; column = c }) ≡ true
    → (a b : ℕ) × (record { line = l; column = c } ≡ square a b) × InRange g a b
unfolding is_inside_grid
inside-square g (pos a) (pos b) h =
    (a, b, refl, (ground arith, ground arith, ground arith, ground arith))
inside-square g (pos a) (negsuc b) h = absurd (ground arith)
inside-square g (negsuc a) c h = absurd (ground arith)

pub inside-InRange :
    (g : Grid) (p : Coordinates)
    → is_inside_grid g p ≡ true
    → (a b : ℕ) × (p ≡ square a b) × InRange g a b
inside-InRange g p h = inside-square g p.line p.column h

-- How far the scan can still go: along the lines, or along the columns if it keeps to one line.
abbrev pub remaining : Sign → Sign → Grid → Coordinates → ℕ
remaining sx level g p = left_over sx (columns_of g.squares_matrix) p.column
remaining sx minus g p = left_over minus (length g.squares_matrix) p.line
remaining sx plus g p = left_over plus (length g.squares_matrix) p.line

pub remaining-moves :
    (sx sy : Sign) (g : Grid) (a b : ℕ)
    → (sx ≢ level) ⊎ (sy ≢ level)
    → InRange g a b
    → remaining sx sy g (moves (vector sx sy) (square a b)) < remaining sx sy g (square a b)
unfolding moves
remaining-moves sx level g a b (inl x) r =
    left_over-step sx b (columns_of g.squares_matrix) x r.2 r.3
remaining-moves sx level g a b (inr y) r = absurd (y refl)
remaining-moves sx minus g a b n r =
    left_over-step minus a (length g.squares_matrix) (λ e. cc) r.0 r.1
remaining-moves sx plus g a b n r =
    left_over-step plus a (length g.squares_matrix) (λ e. cc) r.0 r.1

-- A vector whose moves inside the grid bring the border nearer.
abbrev pub Advances : Grid → DirectionVector → (Coordinates → ℕ) → Type 0
Advances g v m = (p : Coordinates) → is_inside_grid g p ≡ true → m (moves v p) < m p

pub vector-Advances :
    (sx sy : Sign) (g : Grid)
    → (sx ≢ level) ⊎ (sy ≢ level)
    → Advances g (vector sx sy) (remaining sx sy g)
vector-Advances sx sy g n p h =
    let (a, b, same, r) = inside-InRange g p h in
    subst (λ q. remaining sx sy g (moves (vector sx sy) q) < remaining sx sy g q) (sym same)
      (remaining-moves sx sy g a b n r)

coordinates_eq_refl : (p : Coordinates) → coordinates_eq p p ≡ true
coordinates_eq_refl p = ground arith

plus_zero : (n : ℕ) → n ≡ n + 0
plus_zero n = omega arith

move_one : (n k : ℕ) → n + 1 + k ≡ n + suc k
move_one n k = omega arith

-- One round of a scan that goes on.
scan-inside :
    (g : Grid) (v : DirectionVector) (to : Coordinates) (fuel : ℕ) (p : Coordinates) (n : ℕ)
    (dest next : Option ℕ) (squares : List Coordinates) (met : Bool)
    → is_inside_grid g p ≡ true
    → coordinates_eq p to ≡ met
    → (met && (n == 0)) ≡ false
    → scan fuel g v to (moves v p) (n + 1) (if met then some n else dest) ≡ ok (squares, next)
    → scan (suc fuel) g v to p n dest ≡ ok (p ∷ squares, next)
unfolding scan
scan-inside g v to fuel p n dest next squares met inside meets late e =
    rw (scan, inside, meets, late, e) refl

-- The destination is `k` moves away, and the moves start inside.
abbrev pub Way : Grid → DirectionVector → Coordinates → ℕ → Coordinates → Type 0
Way g v to zero p = p ≡ to
Way g v to (suc k) p = (is_inside_grid g p ≡ true) × Way g v to k (moves v p)

-- With fuel above the measure the scan ends by itself. Once it is past the destination it keeps the
-- position that it has.
module _ (g : Grid) (v : DirectionVector) (to : Coordinates) (m : Coordinates → ℕ)
    (advances : Advances g v m) where
  pub scan-past :
      (fuel : ℕ) (p : Coordinates) (n : ℕ) (dest : Option ℕ)
      → m p < fuel
      → m p < m to
      → 0 < n
      → (squares : List Coordinates) × (scan fuel g v to p n dest ≡ ok (squares, dest))
  unfolding scan
  scan-past zero p n dest f l n0 = absurd (omega (arith, f))
  scan-past (suc fuel) p n dest f l n0 = elim (Bool-cases (is_inside_grid g p)) [
    | inr out ↦ ([], rw (scan, out) refl)
    | inl inside ↦ elim (Bool-cases (coordinates_eq p to)) [
      | inl same ↦ absurd (omega (arith, l, ap m (coordinates_eq_sound p to same)))
      | inr other ↦
          let down = advances p inside in
          let (rest, e) =
            scan-past fuel (moves v p) (n + 1) dest (omega arith) (omega arith) (omega arith) in
          (p ∷ rest, scan-inside g v to fuel p n dest dest rest false inside other refl e)
    ]
  ]

  Way-le : (k : ℕ) (p : Coordinates) → Way g v to k p → m to + k ≤ m p
  Way-le zero p w = omega (arith, ap m w)
  Way-le (suc k) p w = omega (arith, Way-le k (moves v p) w.1, advances p w.0)

  -- With fuel above the measure the scan returns, and it has the destination at its distance.
  pub scan-Way :
      (fuel k : ℕ) (p : Coordinates) (n : ℕ) (dest : Option ℕ)
      → is_inside_grid g to ≡ true
      → m p < fuel
      → Way g v to k p
      → 0 < n + k
      → (squares : List Coordinates) × (scan fuel g v to p n dest ≡ ok (squares, some (n + k)))
  unfolding scan
  scan-Way zero k p n dest in_to f w n0 = absurd (omega (arith, f))
  scan-Way (suc fuel) zero p n dest in_to f w n0 =
      let down = advances p (subst (λ q. is_inside_grid g q ≡ true) (sym w) in_to) in
      let (rest, e) =
        scan-past fuel (moves v p) (n + 1) (some n) (omega (arith, down, f))
          (omega (arith, down, ap m w)) (omega arith) in
      let inside = subst (λ q. is_inside_grid g q ≡ true) (sym w) in_to in
      let met : coordinates_eq p to ≡ true =
        subst (λ q. coordinates_eq q to ≡ true) (sym w) (coordinates_eq_refl to) in
      let late : (n == 0) ≡ false = ground arith in
      (
        p ∷ rest,
        scan-inside g v to fuel p n dest (some n) rest true inside met late e
            ∙ ap (λ k. ok (p ∷ rest, some k)) (plus_zero n),
      )
  scan-Way (suc fuel) (suc k) p n dest in_to f w n0 = elim (Bool-cases (coordinates_eq p to)) [
    | inl same ↦ absurd (omega (arith, Way-le (suc k) p w, ap m (coordinates_eq_sound p to same)))
    | inr other ↦
        let down = advances p w.0 in
        let (rest, e) =
          scan-Way fuel k (moves v p) (n + 1) dest in_to (omega (arith, down, f)) w.1
            (omega arith) in
        (
          p ∷ rest,
          scan-inside g v to fuel p n dest (some (n + 1 + k)) rest false w.0 other refl e
              ∙ ap (λ j. ok (p ∷ rest, some j)) (move_one n k),
        )
  ]
