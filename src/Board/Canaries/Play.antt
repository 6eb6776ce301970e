-- ===== src/Board/Canaries/Play.antt =====
-- Every move of Canaries is atomic and keeps the pawn counters.
use rp_t_minigames_server.Prelude.{◌≡◌, refl, sym, ◌∙◌, inl, inr, true, Bool-cases, [], ap}
use rp_t_minigames_server.Prelude.Int.{ℤ, pos, eqb_ℤ, negate}
use rp_t_minigames_server.Outcome.{ok, bad_coordinates}
use rp_t_minigames_server.Outcome.Ends.{Ends, returns, throws, Ends-lift, Ends-guard, Ends-then}
use rp_t_minigames_server.Board.Grid.{Coordinates, free, square_eq, flip, at, write}
use rp_t_minigames_server.Board.Axis.{
  AxisIterator, every_orthogonal_direction, new_axis, move_forward, distance_from_destination,
}
use rp_t_minigames_server.Board.Game.{opponent_loses_pawn, GridUpdate, color_for, other_player}
use rp_t_minigames_server.Board.Game.Writes.{Tallied, put-ok, second_held}
use rp_t_minigames_server.Board.Game.Captures.{
  color-ne-free, color-ne-other, flip-color, moved-Tallied, same_turn, walked, walk-Tallied,
  replace-Tallied, square_eq→≡,
}
use rp_t_minigames_server.Board.Canaries.{Canaries, play_normal, play_eat, play_by_range, play}

-- What a move leaves: the counters fit the grid, and the turn has not changed.
abbrev pub Keeps : Canaries → GridUpdate → Canaries → Type 0
Keeps g u g' =
    Tallied g'.board
    × (g'.current_player ≡ g.current_player)
    × (g'.pawns_count_threshold ≡ g.pawns_count_threshold)

play_normal-Ends :
    (u : GridUpdate) (move : AxisIterator) (g : Canaries)
    → Tallied g.board
    → at g.game_grid u.move_origin ≡ ok (color_for g.current_player)
    → Ends g (Keeps g) (play_normal u move g)
unfolding play_normal
play_normal-Ends u move g t own = Ends-lift (move_forward move) _ g λ (it, d) m.
    Ends-lift (at g.game_grid d) _ g λ state r. Ends-guard (square_eq state free) _ _ g λ is_free.
      let at_d = r ∙ ap ok (square_eq→≡ state free is_free) in
      let color = color_for g.current_player in
      let b = g.board in
      let at_d' =
        second_held g.game_grid u.move_origin d free color own at_d
          (color-ne-free g.current_player) in
      returns u
        (record { board = record b { game_grid = walked g.game_grid u.move_origin d color } })
        (rw (
          put-ok g.game_grid u.move_origin free own,
          put-ok (write g.game_grid u.move_origin free) d color at_d',
        ))
        (walk-Tallied g.current_player b u.move_origin d t own at_d, refl, refl)

play_eat-Ends :
    (u : GridUpdate) (move : AxisIterator) (g : Canaries)
    → Tallied g.board
    → at g.game_grid u.move_origin ≡ ok (color_for g.current_player)
    → Ends g (Keeps g) (play_eat u move g)
unfolding play_eat
play_eat-Ends u move g t own = Ends-lift (move_forward move) _ g λ (it, s) m.
    Ends-lift (at g.game_grid s) _ g λ over r.
      Ends-guard (square_eq over (color_for g.current_player)) _ _ g λ mine.
        Ends-lift (move_forward it) _ g λ (it', d) m'. Ends-lift (at g.game_grid d) _ g λ eaten r'.
          Ends-lift (flip (color_for g.current_player)) _ g λ opponent f.
            Ends-guard (square_eq eaten opponent) _ _ g λ theirs.
              let p = g.current_player in
              let b = g.board in
              let color = color_for p in
              let at_d : at g.game_grid d ≡ ok (color_for (other_player p)) =
                r' ∙ ap ok (square_eq→≡ eaten opponent theirs) ∙ sym f ∙ flip-color p in
              let at_d' =
                second_held g.game_grid u.move_origin d free color own at_d (color-ne-other p) in
              let b' = record b { game_grid = walked g.game_grid u.move_origin d color } in
              returns u (record { board = opponent_loses_pawn p b' })
                (rw (
                  put-ok g.game_grid u.move_origin free own,
                  put-ok (write g.game_grid u.move_origin free) d color at_d',
                ))
                (
                  replace-Tallied p b u.move_origin d t own at_d,
                  (same_turn p b').0,
                  (same_turn p b').1,
                )

play_by_range-Ends :
    (range : ℤ) (u : GridUpdate) (move : AxisIterator) (g : Canaries)
    → Tallied g.board
    → at g.game_grid u.move_origin ≡ ok (color_for g.current_player)
    → Ends g (Keeps g) (play_by_range range u move g)
unfolding play_by_range
play_by_range-Ends range u move g t own = elim (Bool-cases (eqb_ℤ range (pos 1))) [
  | inl one ↦ rw one (play_normal-Ends u move g t own)
  | inr far ↦ elim (Bool-cases (eqb_ℤ range (pos 2))) [
    | inl two ↦ rw (far, two) (play_eat-Ends u move g t own)
    | inr none ↦ rw (far, none) (throws (bad_coordinates _) refl)
  ]
]

-- On a valid grid whose numbers of white and black pawns the counters are, a move of Canaries that
-- throws leaves the game as it was; one that returns leaves a valid grid with this again, the same
-- player, the same threshold, and the mark that the player has moved.
pub canaries_play-Ends :
    (from to : Coordinates) (g : Canaries)
    → Tallied g.board
    → Ends g (λ u g'. Keeps g u g' × (g'.moved_flag ≡ true)) (play from to g)
unfolding play
canaries_play-Ends from to g t =
    Ends-lift (new_axis true g.game_grid from to every_orthogonal_direction) _ g λ move made.
      Ends-lift (at g.game_grid from) _ g λ state r.
        Ends-guard (square_eq state (color_for g.current_player)) _ _ g λ mine.
          Ends-lift (distance_from_destination move) _ g λ distance far.
            let own = r ∙ ap ok (square_eq→≡ state (color_for g.current_player) mine) in
            let u : GridUpdate = record {
              updated_squares = [];
              move_origin = from;
              move_destination = to;
            } in
            Ends-then g (play_by_range (negate distance) u move g) _
              (play_by_range-Ends (negate distance) u move g t own)
              λ u' g' k. (
                u',
                record { board = record g'.board { moved_flag = true } },
                refl,
                ((moved-Tallied g'.board k.0, k.1, k.2), refl),
              )
