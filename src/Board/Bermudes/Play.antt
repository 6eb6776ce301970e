-- ===== src/Board/Bermudes/Play.antt =====
-- Every move of Bermudes is atomic and keeps the pawn counters.
use rp_t_minigames_server.Prelude.{
  ◌<◌, ◌≡◌, ◌≢◌, refl, sym, ◌∙◌, inl, inr, true, not, some, none, arith, Bool-cases, Option-cases,
  get_elem?, get_elem?-lt, [], ◌∷◌, ◌++◌, length, ap, subst,
}
use rp_t_minigames_server.Prelude.Int.{ℤ, pos, negsuc, ltb_ℤ, negate}
use rp_t_minigames_server.Outcome.{ok, bad_square_state}
use rp_t_minigames_server.Outcome.Ends.{
  Ends, returns, throws, Ends-lift, Ends-guard, Ends-read, Ends-then,
}
use rp_t_minigames_server.Board.Grid.{Grid, Coordinates, Square, free, square_eq, flip, at, write}
use rp_t_minigames_server.Board.Grid.Cells.{IsValid, at_index-eq}
use rp_t_minigames_server.Board.Axis.{
  AxisIterator, every_direction, new_axis, move_forward, current_position,
  distance_from_destination,
}
use rp_t_minigames_server.Board.Axis.Found.{Made, new_axis-Made, move_forward-next}
use rp_t_minigames_server.Board.Game.{
  pawn_flipped, opponent_loses_pawn, Player, GridUpdate, color_for, other_player,
}
use rp_t_minigames_server.Board.Game.Writes.{Tallied, put-ok, second_held, third_held}
use rp_t_minigames_server.Board.Game.Captures.{
  moved-Tallied, same_turn, same_turn_flipped, walked, jumped, color-ne-free, color-ne-other,
  flip-color, replace-Tallied, flip-Tallied, square_eq→≡,
}
use rp_t_minigames_server.Board.Bermudes.{
  Bermudes, elimination, flipping, eliminate, flip_from, check_free_trajectory, play_elimination,
  play_flip, play_by_destination, play,
}
use rp_t_minigames_server.Board.Bermudes.Trajectory.{
  Reaches, check_free_trajectory-Ends, just_before,
}

-- What a move leaves: the counters fit the grid, and the turn has not changed.
abbrev pub Keeps : Bermudes → GridUpdate → Bermudes → Type 0
Keeps g u g' =
    Tallied g'.board
    × (g'.current_player ≡ g.current_player)
    × (g'.pawns_count_threshold ≡ g.pawns_count_threshold)

eliminate-Ends :
    (u : GridUpdate) (g : Bermudes)
    → Tallied g.board
    → at g.game_grid u.move_origin ≡ ok (color_for g.current_player)
    → at g.game_grid u.move_destination ≡ ok (color_for (other_player g.current_player))
    → Ends g (Keeps g) (eliminate u g.current_player g)
unfolding eliminate
eliminate-Ends u g t own theirs =
    let p = g.current_player in
    let o = u.move_origin in
    let d = u.move_destination in
    let color = color_for p in
    let b' = record (g.board) { game_grid = walked g.game_grid o d color } in
    let theirs' = second_held g.game_grid o d free color own theirs (color-ne-other p) in
    returns u (record { board = opponent_loses_pawn p b'; last_move = some elimination })
      (rw (put-ok g.game_grid o free own, put-ok (write g.game_grid o free) d color theirs'))
      (replace-Tallied p g.board o d t own theirs, (same_turn p b').0, (same_turn p b').1)

play_elimination-Ends :
    (u : GridUpdate) (move : AxisIterator) (g : Bermudes)
    → Tallied g.board
    → at g.game_grid u.move_origin ≡ ok (color_for g.current_player)
    → at g.game_grid u.move_destination ≡ ok (color_for (other_player g.current_player))
    → Ends g (Keeps g) (play_elimination u move g)
unfolding play_elimination
play_elimination-Ends u move g t own theirs =
    Ends-lift (distance_from_destination move) _ g λ distance _.
      Ends-guard (not (ltb_ℤ (negate distance) (pos 2))) _ _ g λ _.
        Ends-read g (check_free_trajectory move (pos 0) g) (λ _. eliminate u g.current_player)
          (check_free_trajectory-Ends move (pos 0) g) λ _ _ _. eliminate-Ends u g t own theirs

no_distance :
    (it : AxisIterator) {x : ℤ} → distance_from_destination it ≡ ok x → it.destination_pos ≢ none
unfolding distance_from_destination
no_distance it e n = ground arith

-- The square behind the flipped one is the destination.
landing :
    (g : Grid) (from to : Coordinates) (move it it' : AxisIterator) (position d : Coordinates)
    → IsValid g
    → Made g from to move
    → Reaches move (negsuc 0) it
    → current_position it ≡ ok position
    → move_forward it ≡ ok (it', d)
    → d ≡ to
unfolding current_position
landing g from to move it it' position d valid m r held forward =
    elim (Option-cases it.destination_pos) [
      | inl unset ↦ absurd (no_distance it r.distance_is unset)
      | inr (k, set_to) ↦
          let on_axis = m.found k (sym r.moved.same_destination ∙ set_to) in
          let k_small : k < 53 = omega (
            arith,
            get_elem?-lt move.axis k on_axis,
            m.short,
            valid.few_lines,
            valid.few_columns,
          ) in
          let here = at_index-eq it.axis it.current_pos held in
          let near : it.current_pos < 53 = omega (
            arith,
            get_elem?-lt it.axis it.current_pos here,
            ap length r.moved.same_axis,
            m.short,
            valid.few_lines,
            valid.few_columns,
          ) in
          let next = just_before it k set_to k_small near r.distance_is r.at_distance in
          let there : get_elem? move.axis k ≡ some d =
            rw (r.moved.same_axis, next) at (move_forward-next it forward).1 in
          cc (on_axis, there)
    ]

flip_from-Ends :
    (u : GridUpdate) (from : Coordinates) (move it : AxisIterator) (g : Bermudes)
    → Tallied g.board
    → Made g.game_grid from u.move_destination move
    → Reaches move (negsuc 0) it
    → at g.game_grid u.move_origin ≡ ok (color_for g.current_player)
    → at g.game_grid u.move_destination ≡ ok free
    → Ends g (Keeps g) (flip_from u g.current_player it g)
unfolding flip_from
flip_from-Ends u from move it g t m r own empty = Ends-lift (current_position it) _ g λ s here.
    Ends-lift (at g.game_grid s) _ g λ state held.
      Ends-lift (move_forward it) _ g λ (it', d) forward.
        Ends-lift (flip (color_for g.current_player)) _ g λ opponent f.
          Ends-guard (square_eq state opponent) _ _ g λ theirs.
            let p = g.current_player in
            let o = u.move_origin in
            let color = color_for p in
            let at_s : at g.game_grid s ≡ ok (color_for (other_player p)) =
              held ∙ ap ok (square_eq→≡ state opponent theirs) ∙ sym f ∙ flip-color p in
            let same : d ≡ u.move_destination =
              landing g.game_grid from u.move_destination move it it' s d t.valid m r here
                forward in
            let at_d : at g.game_grid d ≡ ok free = ap (at g.game_grid) same ∙ empty in
            let at_s' = second_held g.game_grid o s free color own at_s (color-ne-other p) in
            let at_d' =
              third_held g.game_grid o s d free color color own at_s at_d (color-ne-other p)
                (color-ne-free p) (color-ne-free (other_player p)) in
            let b' = record (g.board) { game_grid = jumped g.game_grid o s d color color } in
            returns
              (record u {
                updated_squares =
                    u.updated_squares ++ record { square = s; updated_state = color } ∷ [];
              })
              (record { board = pawn_flipped p b'; last_move = some flipping })
              (rw (
                put-ok g.game_grid o free own,
                put-ok (write g.game_grid o free) s color at_s',
                put-ok (write (write g.game_grid o free) s color) d color at_d',
              ))
              (
                flip-Tallied p g.board o s d t own at_s at_d,
                (same_turn_flipped p b').0,
                (same_turn_flipped p b').1,
              )

play_flip-Ends :
    (u : GridUpdate) (from : Coordinates) (move : AxisIterator) (g : Bermudes)
    → Tallied g.board
    → Made g.game_grid from u.move_destination move
    → at g.game_grid u.move_origin ≡ ok (color_for g.current_player)
    → at g.game_grid u.move_destination ≡ ok free
    → Ends g (Keeps g) (play_flip u move g)
unfolding play_flip
play_flip-Ends u from move g t m own empty =
    Ends-read g (check_free_trajectory move (negsuc 0) g) (flip_from u g.current_player)
      (check_free_trajectory-Ends move (negsuc 0) g)
      λ it _ r. flip_from-Ends u from move it g t m r own empty

play_by_destination-Ends :
    (state : Square) (u : GridUpdate) (from : Coordinates) (move : AxisIterator) (g : Bermudes)
    → Tallied g.board
    → Made g.game_grid from u.move_destination move
    → at g.game_grid u.move_origin ≡ ok (color_for g.current_player)
    → at g.game_grid u.move_destination ≡ ok state
    → Ends g
        (Keeps g)
        (play_by_destination state (color_for (other_player g.current_player)) u move g)
unfolding play_by_destination
play_by_destination-Ends state u from move g t m own held =
    let opponent = color_for (other_player g.current_player) in
    elim (Bool-cases (square_eq state free)) [
      | inl empty ↦
          rw empty
            (play_flip-Ends u from move g t m own (held ∙ ap ok (square_eq→≡ state free empty)))
      | inr busy ↦ elim (Bool-cases (square_eq state opponent)) [
        | inl theirs ↦
            rw (busy, theirs)
              (play_elimination-Ends u move g t own
                (held ∙ ap ok (square_eq→≡ state opponent theirs)))
        | inr mine ↦ rw (busy, mine) (throws (bad_square_state _) refl)
      ]
    ]

opponent_is : (p : Player) (s : Square) → flip (color_for p) ≡ ok s → color_for (other_player p) ≡ s
opponent_is p s f = cc (flip-color p, f)

-- On a valid grid whose numbers of white and black pawns the counters are, a move of Bermudes that
-- throws leaves the game as it was; one that returns leaves a valid grid with this again, the same
-- player, the same threshold, and the mark that the player has moved.
pub bermudes_play-Ends :
    (from to : Coordinates) (g : Bermudes)
    → Tallied g.board
    → Ends g (λ u g'. Keeps g u g' × (g'.moved_flag ≡ true)) (play from to g)
unfolding play
bermudes_play-Ends from to g t =
    Ends-lift (new_axis true g.game_grid from to every_direction) _ g λ move made.
      Ends-lift (at g.game_grid from) _ g λ state r.
        Ends-guard (square_eq state (color_for g.current_player)) _ _ g λ mine.
          Ends-lift (at g.game_grid to) _ g λ there held.
            Ends-lift (flip (color_for g.current_player)) _ g λ opponent f.
              let m = new_axis-Made g.game_grid from to every_direction made in
              let own = r ∙ ap ok (square_eq→≡ state (color_for g.current_player) mine) in
              let u : GridUpdate = record {
                updated_squares = [];
                move_origin = from;
                move_destination = to;
              } in
              Ends-then g (play_by_destination there opponent u move g) _
                (subst (λ c. Ends g (Keeps g) (play_by_destination there c u move g))
                  (opponent_is g.current_player opponent f)
                  (play_by_destination-Ends there u from move g t m own held))
                λ u' g' k. (
                  u',
                  record g' { board = record (g'.board) { moved_flag = true } },
                  refl,
                  ((moved-Tallied g'.board k.0, k.1, k.2), refl),
                )
