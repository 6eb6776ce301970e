-- ===== src/Board/Acores/Play.antt =====
-- Every move of Açores is atomic and keeps the pawn counters.
use rp_t_minigames_server.Prelude.{
  ◌≡◌, refl, sym, ◌∙◌, inl, inr, true, not, some, arith, Bool-cases, get_elem?, [], ◌∷◌, ◌++◌, ap,
  subst,
}
use rp_t_minigames_server.Prelude.Int.{ℤ, pos, eqb_ℤ, negate}
use rp_t_minigames_server.Outcome.{ok, bad_coordinates}
use rp_t_minigames_server.Outcome.Ends.{Ends, returns, throws, Ends-lift, Ends-guard, Ends-then}
use rp_t_minigames_server.Board.Grid.{Coordinates, free, square_eq, flip, at, write}
use rp_t_minigames_server.Board.Axis.{
  AxisIterator, every_direction, new_axis, move_forward, current_position,
  distance_from_destination,
}
use rp_t_minigames_server.Board.Axis.Found.{new_axis-Made, landing, destination-near}
use rp_t_minigames_server.Board.Game.{opponent_loses_pawn, GridUpdate, color_for, other_player}
use rp_t_minigames_server.Board.Game.Writes.{Tallied, put-ok, second_held, third_held}
use rp_t_minigames_server.Board.Game.Captures.{
  color-ne-free, color-ne-other, flip-color, moved-Tallied, same_turn, walked, jumped, walk-Tallied,
  jump-Tallied, square_eq→≡,
}
use rp_t_minigames_server.Board.Acores.{
  Acores, normal, jump, is_move, play_normal, play_jump, play_by_range, play,
}

-- What a move leaves: the counters fit the grid, and the turn has not changed.
abbrev pub Keeps : Acores → GridUpdate → Acores → Type 0
Keeps g u g' =
    Tallied g'.board
    × (g'.current_player ≡ g.current_player)
    × (g'.pawns_count_threshold ≡ g.pawns_count_threshold)

play_normal-Ends :
    (u : GridUpdate) (move : AxisIterator) (g : Acores)
    → Tallied g.board
    → at g.game_grid u.move_origin ≡ ok (color_for g.current_player)
    → Ends g (Keeps g) (play_normal u move g)
unfolding play_normal
play_normal-Ends u move g t own = Ends-guard (not (is_move g.last_move jump)) _ _ g λ _.
    Ends-lift (move_forward move) _ g λ (it, d) m. Ends-lift (at g.game_grid d) _ g λ state r.
      Ends-guard (square_eq state free) _ _ g λ is_free.
        let at_d = r ∙ ap ok (square_eq→≡ state free is_free) in
        let color = color_for g.current_player in
        let b = g.board in
        let at_d' =
          second_held g.game_grid u.move_origin d free color own at_d
            (color-ne-free g.current_player) in
        returns u
          (record {
            board = record b { game_grid = walked g.game_grid u.move_origin d color };
            last_move = some normal;
          })
          (rw (
            put-ok g.game_grid u.move_origin free own,
            put-ok (write g.game_grid u.move_origin free) d color at_d',
          ))
          (walk-Tallied g.current_player g.board u.move_origin d t own at_d, refl, refl)

play_jump-Ends :
    (u : GridUpdate) (move : AxisIterator) (g : Acores)
    → Tallied g.board
    → at g.game_grid u.move_origin ≡ ok (color_for g.current_player)
    → move.current_pos ≡ 0
    → get_elem? move.axis 2 ≡ some u.move_destination
    → Ends g (Keeps g) (play_jump u move g)
unfolding play_jump
play_jump-Ends u move g t own start second = Ends-lift (move_forward move) _ g λ (it, s) m.
    Ends-lift (current_position it) _ g λ position _. Ends-lift (at g.game_grid s) _ g λ skipped r.
      Ends-lift (flip (color_for g.current_player)) _ g λ opponent f.
        Ends-guard (square_eq skipped opponent) _ _ g λ over.
          Ends-lift (move_forward it) _ g λ (it', d) m'.
            Ends-lift (at g.game_grid d) _ g λ state r'.
              Ends-guard (square_eq state free) _ _ g λ is_free.
                let p = g.current_player in
                let b = g.board in
                let color = color_for p in
                let to = u.move_destination in
                let at_s : at g.game_grid s ≡ ok (color_for (other_player p)) =
                  r ∙ ap ok (square_eq→≡ skipped opponent over) ∙ sym f ∙ flip-color p in
                let same : d ≡ to = landing move it it' s d to m m' start second in
                let at_to : at g.game_grid to ≡ ok free =
                  subst (λ q. at g.game_grid q ≡ ok free) same
                    (r' ∙ ap ok (square_eq→≡ state free is_free)) in
                let at_s' =
                  second_held g.game_grid u.move_origin s free free own at_s (color-ne-other p) in
                let at_to' =
                  third_held g.game_grid u.move_origin s to free free color own at_s at_to
                    (color-ne-other p) (color-ne-free p) (color-ne-free (other_player p)) in
                let b' = record b {
                  game_grid = jumped g.game_grid u.move_origin s to free color;
                } in
                returns
                  (record u {
                    updated_squares =
                        u.updated_squares
                        ++ record { square = position; updated_state = free } ∷ [];
                  })
                  (record { board = opponent_loses_pawn p b'; last_move = some jump })
                  (rw (
                    put-ok g.game_grid u.move_origin free own,
                    put-ok (write g.game_grid u.move_origin free) s free at_s',
                    put-ok (write (write g.game_grid u.move_origin free) s free) to color at_to',
                  ))
                  (
                    jump-Tallied p b u.move_origin s to t own at_s at_to,
                    (same_turn p b').0,
                    (same_turn p b').1,
                  )

play_by_range-Ends :
    (range : ℤ) (u : GridUpdate) (move : AxisIterator) (g : Acores)
    → Tallied g.board
    → at g.game_grid u.move_origin ≡ ok (color_for g.current_player)
    → move.current_pos ≡ 0
    → (eqb_ℤ range (pos 2) ≡ true → get_elem? move.axis 2 ≡ some u.move_destination)
    → Ends g (Keeps g) (play_by_range range u move g)
unfolding play_by_range
play_by_range-Ends range u move g t own start second = elim (Bool-cases (eqb_ℤ range (pos 1))) [
  | inl one ↦ rw one (play_normal-Ends u move g t own)
  | inr far ↦ elim (Bool-cases (eqb_ℤ range (pos 2))) [
    | inl two ↦ rw (far, two) (play_jump-Ends u move g t own start (second two))
    | inr none ↦ rw (far, none) (throws (bad_coordinates _) refl)
  ]
]

-- On a valid grid whose numbers of white and black pawns the counters are, a move of Açores that
-- throws leaves the game as it was; one that returns leaves a valid grid with this again, the same
-- player, the same threshold, and the mark that the player has moved.
pub acores_play-Ends :
    (from to : Coordinates) (g : Acores)
    → Tallied g.board
    → Ends g (λ u g'. Keeps g u g' × (g'.moved_flag ≡ true)) (play from to g)
unfolding play
acores_play-Ends from to g t =
    Ends-lift (new_axis true g.game_grid from to every_direction) _ g λ move made.
      Ends-lift (at g.game_grid from) _ g λ state r.
        Ends-guard (square_eq state (color_for g.current_player)) _ _ g λ mine.
          Ends-lift (distance_from_destination move) _ g λ distance far.
            let m = new_axis-Made g.game_grid from to every_direction made in
            let own = r ∙ ap ok (square_eq→≡ state (color_for g.current_player) mine) in
            let u : GridUpdate = record {
              updated_squares = [];
              move_origin = from;
              move_destination = to;
            } in
            Ends-then g (play_by_range (negate distance) u move g) _
              (play_by_range-Ends (negate distance) u move g t own m.at_start (λ two.
                destination-near g.game_grid from to move 2 t.valid m far (omega arith)
                  (omega arith) two))
              λ u' g' k. (
                u',
                record g' { board = record g'.board { moved_flag = true } },
                refl,
                ((moved-Tallied g'.board k.0, k.1, k.2), refl),
              )
