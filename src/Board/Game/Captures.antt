-- ===== src/Board/Game/Captures.antt =====
-- The four ways in which a move changes the board, each keeping the counters.
use rp_t_minigames_server.Prelude.{◌≡◌, ◌≢◌, refl, arith, true}
use rp_t_minigames_server.Outcome.{ok}
use rp_t_minigames_server.Board.Grid.{
  Grid, Coordinates, Square, free, black, white, at, write, flip, square_eq,
}
use rp_t_minigames_server.Board.Grid.Cells.{IsValid, write-IsValid}
use rp_t_minigames_server.Board.Game.{
  BoardGame, Player, color_for, other_player, opponent_loses_pawn, pawn_flipped,
}
use rp_t_minigames_server.Board.Game.Writes.{Tallied, count-two, count-three, count-le}

pub color-ne-free : (p : Player) → color_for p ≢ free
color-ne-free Player.white e = cc
color-ne-free Player.black e = cc

pub color-ne-other : (p : Player) → color_for p ≢ color_for (other_player p)
color-ne-other Player.white e = cc
color-ne-other Player.black e = cc

pub flip-color : (p : Player) → flip (color_for p) ≡ ok (color_for (other_player p))
unfolding flip
flip-color Player.white = refl
flip-color Player.black = refl

pub square_eq→≡ : (a b : Square) → square_eq a b ≡ true → a ≡ b
square_eq→≡ a b e = ground arith

-- The grids that the moves leave.
abbrev pub walked : Grid → Coordinates → Coordinates → Square → Grid
walked g o d c = write (write g o free) d c

abbrev pub jumped : Grid → Coordinates → Coordinates → Coordinates → Square → Square → Grid
jumped g o s d v c = write (write (write g o free) s v) d c

module _ (g : Grid) (o s d : Coordinates) where
  pub walked-IsValid : (c : Square) → IsValid g → IsValid (walked g o d c)
  walked-IsValid c v = write-IsValid (write g o free) d c (write-IsValid g o free v)

  pub jumped-IsValid : (v c : Square) → IsValid g → IsValid (jumped g o s d v c)
  jumped-IsValid v c h = write-IsValid (write (write g o free) s v) d c (walked-IsValid' v h)
    where
      walked-IsValid' : (v : Square) → IsValid g → IsValid (write (write g o free) s v)
      walked-IsValid' v h = write-IsValid (write g o free) s v (write-IsValid g o free h)

-- A pawn moves to a free square.
pub walk-Tallied :
    (p : Player) (b : BoardGame) (o d : Coordinates)
    → Tallied b
    → at b.game_grid o ≡ ok (color_for p)
    → at b.game_grid d ≡ ok free
    → Tallied (record b { game_grid = walked b.game_grid o d (color_for p) })
walk-Tallied Player.white b o d t ho hd =
    let g = b.game_grid in
    let n = λ (c : Square). count-two g o d free white c ho hd (color-ne-free Player.white) in
    record {
      valid = walked-IsValid g o o d white t.valid;
      whites = omega (arith, t.whites, n white);
      blacks = omega (arith, t.blacks, n black);
    }
walk-Tallied Player.black b o d t ho hd =
    let g = b.game_grid in
    let n = λ (c : Square). count-two g o d free black c ho hd (color-ne-free Player.black) in
    record {
      valid = walked-IsValid g o o d black t.valid;
      whites = omega (arith, t.whites, n white);
      blacks = omega (arith, t.blacks, n black);
    }

-- A pawn takes the place of one of the opponent's.
pub replace-Tallied :
    (p : Player) (b : BoardGame) (o d : Coordinates)
    → Tallied b
    → at b.game_grid o ≡ ok (color_for p)
    → at b.game_grid d ≡ ok (color_for (other_player p))
    → Tallied
        (opponent_loses_pawn p (record b { game_grid = walked b.game_grid o d (color_for p) }))
replace-Tallied Player.white b o d t ho hd =
    let g = b.game_grid in
    let n = λ (c : Square). count-two g o d free white c ho hd (color-ne-other Player.white) in
    let few = count-le black g t.valid in
    record {
      valid = walked-IsValid g o o d white t.valid;
      whites = omega (arith, t.whites, n white);
      blacks = omega (arith, t.blacks, n black, few);
    }
replace-Tallied Player.black b o d t ho hd =
    let g = b.game_grid in
    let n = λ (c : Square). count-two g o d free black c ho hd (color-ne-other Player.black) in
    let few = count-le white g t.valid in
    record {
      valid = walked-IsValid g o o d black t.valid;
      whites = omega (arith, t.whites, n white, few);
      blacks = omega (arith, t.blacks, n black);
    }

-- A pawn jumps over one of the opponent's, which leaves the board.
pub jump-Tallied :
    (p : Player) (b : BoardGame) (o s d : Coordinates)
    → Tallied b
    → at b.game_grid o ≡ ok (color_for p)
    → at b.game_grid s ≡ ok (color_for (other_player p))
    → at b.game_grid d ≡ ok free
    → Tallied (
        opponent_loses_pawn p
          (record b { game_grid = jumped b.game_grid o s d free (color_for p) }))
jump-Tallied Player.white b o s d t ho hs hd =
    let g = b.game_grid in
    let n = λ (c : Square).
      count-three g o s d free free white c ho hs hd (λ e. cc) (λ e. cc) (λ e. cc) in
    let few = count-le black g t.valid in
    record {
      valid = jumped-IsValid g o s d free white t.valid;
      whites = omega (arith, t.whites, n white);
      blacks = omega (arith, t.blacks, n black, few);
    }
jump-Tallied Player.black b o s d t ho hs hd =
    let g = b.game_grid in
    let n = λ (c : Square).
      count-three g o s d free free black c ho hs hd (λ e. cc) (λ e. cc) (λ e. cc) in
    let few = count-le white g t.valid in
    record {
      valid = jumped-IsValid g o s d free black t.valid;
      whites = omega (arith, t.whites, n white, few);
      blacks = omega (arith, t.blacks, n black);
    }

-- A pawn jumps over one of the opponent's, which changes sides.
pub flip-Tallied :
    (p : Player) (b : BoardGame) (o s d : Coordinates)
    → Tallied b
    → at b.game_grid o ≡ ok (color_for p)
    → at b.game_grid s ≡ ok (color_for (other_player p))
    → at b.game_grid d ≡ ok free
    → Tallied (
        pawn_flipped p
          (record b { game_grid = jumped b.game_grid o s d (color_for p) (color_for p) }))
flip-Tallied Player.white b o s d t ho hs hd =
    let g = b.game_grid in
    let n = λ (c : Square).
      count-three g o s d free white white c ho hs hd (λ e. cc) (λ e. cc) (λ e. cc) in
    record {
      valid = jumped-IsValid g o s d white white t.valid;
      whites = omega (arith, t.whites, n white, count-le white g t.valid);
      blacks = omega (arith, t.blacks, n black, count-le black g t.valid);
    }
flip-Tallied Player.black b o s d t ho hs hd =
    let g = b.game_grid in
    let n = λ (c : Square).
      count-three g o s d free black black c ho hs hd (λ e. cc) (λ e. cc) (λ e. cc) in
    record {
      valid = jumped-IsValid g o s d black black t.valid;
      whites = omega (arith, t.whites, n white, count-le white g t.valid);
      blacks = omega (arith, t.blacks, n black, count-le black g t.valid);
    }

-- The counters apart, nothing of the board changes with them.
pub same_turn :
    (p : Player) (b : BoardGame)
    → ((opponent_loses_pawn p b).current_player ≡ b.current_player)
      × ((opponent_loses_pawn p b).pawns_count_threshold ≡ b.pawns_count_threshold)
same_turn Player.white b = (refl, refl)
same_turn Player.black b = (refl, refl)

pub same_turn_flipped :
    (p : Player) (b : BoardGame)
    → ((pawn_flipped p b).current_player ≡ b.current_player)
      × ((pawn_flipped p b).pawns_count_threshold ≡ b.pawns_count_threshold)
same_turn_flipped Player.white b = (refl, refl)
same_turn_flipped Player.black b = (refl, refl)

pub moved-Tallied : (b : BoardGame) → Tallied b → Tallied (record b { moved_flag = true })
moved-Tallied b t = record { valid = t.valid; whites = t.whites; blacks = t.blacks }
