-- ===== src/Board/Bermudes/Ending.antt =====
-- The walk along a trajectory in Bermudes ends within its fuel.
use rp_t_minigames_server.Prelude.{
  ℕ, zero, suc, ◌+◌, ◌<◌, ◌≤◌, ◌≡◌, ◌≢◌, inl, inr, arith, Bool-cases, length, get_elem?-lt, ap,
}
use rp_t_minigames_server.Prelude.Int.{ℤ, eqb_ℤ}
use rp_t_minigames_server.Outcome.{ok, err, unfinished, Result-cases}
use rp_t_minigames_server.Outcome.Ends.{after-ends}
use rp_t_minigames_server.Board.Grid.{Grid, Coordinates, Square, free, square_eq, at, cell}
use rp_t_minigames_server.Board.Axis.{
  AxisIterator, move_forward, current_position, distance_from_destination,
}
use rp_t_minigames_server.Board.Axis.Found.{move_forward-next}
use rp_t_minigames_server.Board.Bermudes.{Bermudes, next_state, free_until, check_free_trajectory}

move_forward-ends : (it : AxisIterator) → move_forward it ≢ err unfinished
unfolding move_forward
move_forward-ends it h = ground arith

at-ends : (g : Grid) (p : Coordinates) → at g p ≢ err unfinished
unfolding at cell
at-ends g p h = ground arith

distance-ends : (it : AxisIterator) → distance_from_destination it ≢ err unfinished
unfolding distance_from_destination
distance-ends it h = ground arith

current_position-ends : (it : AxisIterator) → current_position it ≢ err unfinished
unfolding current_position
current_position-ends it h = ground arith

next_state-ends : (it : AxisIterator) (g : Bermudes) → (next_state it g).0 ≢ err unfinished
unfolding next_state
next_state-ends it g =
    after-ends (move_forward it) _ g (move_forward-ends it)
      λ next m. after-ends (at g.game_grid next.1) _ g (at-ends g.game_grid next.1) λ state r h. cc

-- The iterator stays on its axis.
next_state-ahead :
    (it : AxisIterator) (g : Bermudes) {reached : AxisIterator × Square}
    → (next_state it g).0 ≡ ok reached
    → (reached.0 ≡ record it { current_pos = it.current_pos + 1 })
      × (it.current_pos + 1 < length it.axis)
unfolding next_state
next_state-ahead it g {reached} h = elim (Result-cases (move_forward it)) [
  | inr (e, m) ↦ absurd (ground arith)
  | inl (next, m) ↦
      let (moved, read) = move_forward-next it m in
      (ground arith, get_elem?-lt it.axis (it.current_pos + 1) read)
]

free_until-ends :
    (fuel : ℕ) (until : ℤ) (it : AxisIterator) (state : Square) (g : Bermudes)
    → length it.axis ≤ fuel + it.current_pos
    → it.current_pos < length it.axis
    → (free_until fuel until (it, state) g).0 ≢ err unfinished
unfolding free_until
free_until-ends zero until it state g enough on = absurd (omega (arith, enough, on))
free_until-ends (suc fuel) until it state g enough on =
    elim (Result-cases (distance_from_destination it)) [
      | inr (e, d) ↦ λ h. distance-ends it (ground arith)
      | inl (distance, d) ↦ elim (Bool-cases (eqb_ℤ distance until)) [
        | inl met ↦ λ h. ground arith
        | inr far ↦ elim (Bool-cases (square_eq state free)) [
          | inl empty ↦
              rw (d, free_until, far, empty)
                (after-ends (next_state it g).0
                  (λ reached. free_until fuel until reached (next_state it g).1) (next_state it g).1
                  (next_state-ends it g)
                  λ reached m.
                    let (moved, ahead) = next_state-ahead it g m in
                    let position : reached.0.current_pos ≡ it.current_pos + 1 =
                      ap (λ (i : AxisIterator). i.current_pos) moved in
                    let same : length reached.0.axis ≡ length it.axis =
                      ap (λ (i : AxisIterator). length i.axis) moved in
                    free_until-ends fuel until reached.0 reached.1 (next_state it g).1
                      (omega (arith, enough, position, same))
                      (omega (arith, ahead, position, same)))
          | inr taken ↦
              rw (d, free_until, far, taken)
                (after-ends (current_position it) _ g (current_position-ends it)
                  λ at_position _ h. cc)
        ]
      ]
    ]

-- The check of a trajectory in Bermudes ends, whatever the iterator, the distance it looks for and the
-- grid are: the fuel, one round more than the axis has squares, never runs out. The check returns an
-- iterator, or throws what the code throws.
pub check_free_trajectory_ends :
    (it : AxisIterator) (until : ℤ) (g : Bermudes)
    → (check_free_trajectory it until g).0 ≢ err unfinished
unfolding check_free_trajectory
check_free_trajectory_ends it until g =
    after-ends (next_state it g).0
      (λ reached. free_until (length it.axis + 1) until reached (next_state it g).1)
      (next_state it g).1 (next_state-ends it g)
      λ reached m.
        let (moved, ahead) = next_state-ahead it g m in
        let position : reached.0.current_pos ≡ it.current_pos + 1 =
          ap (λ (i : AxisIterator). i.current_pos) moved in
        let same : length reached.0.axis ≡ length it.axis =
          ap (λ (i : AxisIterator). length i.axis) moved in
        free_until-ends (length it.axis + 1) until reached.0 reached.1 (next_state it g).1
          (omega (arith, same)) (omega (arith, ahead, position, same))
