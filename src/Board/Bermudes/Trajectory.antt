-- ===== src/Board/Bermudes/Trajectory.antt =====
-- The scan of a trajectory in Bermudes: it reads only, and stops at its distance.
use rp_t_minigames_server.Prelude.{
  ℕ, zero, suc, ◌+◌, ◌<◌, ◌≡◌, refl, ◌∙◌, inl, inr, true, some, arith, Bool-cases, length, ap,
}
use rp_t_minigames_server.Prelude.Int.{ℤ, negsuc, eqb_ℤ, to_int}
use rp_t_minigames_server.Outcome.{Result, ok, unfinished, Result-cases}
use rp_t_minigames_server.Outcome.Ends.{Ends, returns, throws, Ends-lift, Ends-read}
use rp_t_minigames_server.Board.Grid.{Square, free, square_eq, at}
use rp_t_minigames_server.Board.Axis.{
  AxisIterator, move_forward, current_position, distance_from_destination,
}
use rp_t_minigames_server.Board.Axis.Found.{move_forward-next}
use rp_t_minigames_server.Board.Bermudes.{Bermudes, next_state, free_until, check_free_trajectory}

-- An iterator moved along the same axis.
pub record Moved (it it' : AxisIterator) : Type 0 where
  pub same_axis : it'.axis ≡ it.axis
  pub same_destination : it'.destination_pos ≡ it.destination_pos

Moved-trans : {a b c : AxisIterator} → Moved a b → Moved b c → Moved a c
Moved-trans m n = record {
  same_axis = n.same_axis ∙ m.same_axis;
  same_destination = n.same_destination ∙ m.same_destination;
}

pub record Reaches (it : AxisIterator) (until : ℤ) (it' : AxisIterator) : Type 0 where
  pub moved : Moved it it'
  pub distance : ℤ
  pub distance_is : distance_from_destination it' ≡ ok distance
  pub at_distance : eqb_ℤ distance until ≡ true

next_state-Ends :
    (it : AxisIterator) (g : Bermudes)
    → Ends g
        (λ (x : AxisIterator × Square) g'.
          (g' ≡ g) × (x.0 ≡ record it { current_pos = it.current_pos + 1 }))
        (next_state it g)
unfolding next_state
next_state-Ends it g = Ends-lift (move_forward it) _ g λ next m.
    Ends-lift (at g.game_grid next.1) _ g
      λ state r. returns (next.0, state) g refl (refl, (move_forward-next it m).0)

forward-Moved :
    (it it' : AxisIterator) → it' ≡ record it { current_pos = it.current_pos + 1 } → Moved it it'
forward-Moved it it' e = record {
  same_axis = ap (λ (i : AxisIterator). i.axis) e;
  same_destination = ap (λ (i : AxisIterator). i.destination_pos) e;
}

further :
    (it : AxisIterator) (reached : AxisIterator × Square) (until : ℤ) (g : Bermudes)
    (x : Result AxisIterator × Bermudes)
    → reached.0 ≡ record it { current_pos = it.current_pos + 1 }
    → Ends g (λ it' g'. (g' ≡ g) × Reaches reached.0 until it') x
    → Ends g (λ it' g'. (g' ≡ g) × Reaches it until it') x
further it reached until g x p (throws e q) = throws e q
further it reached until g x p (returns it' g' q (same, r)) = returns it' g' q (
  same,
  record {
    moved = Moved-trans (forward-Moved it reached.0 p) r.moved;
    distance = r.distance;
    distance_is = r.distance_is;
    at_distance = r.at_distance;
  },
)

free_until-Ends :
    (fuel : ℕ) (until : ℤ) (it : AxisIterator) (state : Square) (g : Bermudes)
    → Ends g (λ it' g'. (g' ≡ g) × Reaches it until it') (free_until fuel until (it, state) g)
unfolding free_until
free_until-Ends zero until it state g = throws unfinished refl
free_until-Ends (suc fuel) until it state g = elim (Result-cases (distance_from_destination it)) [
  | inr (e, d) ↦ throws e (ground arith)
  | inl (distance, d) ↦ elim (Bool-cases (eqb_ℤ distance until)) [
    | inl met ↦ returns it g (ground arith) (
      refl,
      record {
        moved = record { same_axis = refl; same_destination = refl };
        distance = distance;
        distance_is = d;
        at_distance = met;
      },
    )
    | inr far ↦ elim (Bool-cases (square_eq state free)) [
      | inl empty ↦
          rw (d, free_until, far, empty)
            (Ends-read g (next_state it g) (free_until fuel until) (next_state-Ends it g)
              λ reached _ p.
                further it reached until g (free_until fuel until reached g) p
                  (free_until-Ends fuel until reached.0 reached.1 g))
      | inr taken ↦
          rw (d, free_until, far, taken)
            (Ends-lift (current_position it) _ g λ at_position _. throws _ refl)
    ]
  ]
]

pub check_free_trajectory-Ends :
    (it : AxisIterator) (until : ℤ) (g : Bermudes)
    → Ends g (λ it' g'. (g' ≡ g) × Reaches it until it') (check_free_trajectory it until g)
unfolding check_free_trajectory
check_free_trajectory-Ends it until g =
    Ends-read g (next_state it g) (free_until (length it.axis + 1) until) (next_state-Ends it g)
      λ reached _ p.
        further it reached until g (free_until (length it.axis + 1) until reached g) p
          (free_until-Ends (length it.axis + 1) until reached.0 reached.1 g)

-- One square before the destination, the next one is the destination.
pub just_before :
    (it : AxisIterator) (k : ℕ) {distance : ℤ}
    → it.destination_pos ≡ some k
    → k < 53
    → it.current_pos < 53
    → distance_from_destination it ≡ ok distance
    → eqb_ℤ distance (negsuc 0) ≡ true
    → it.current_pos + 1 ≡ k
unfolding distance_from_destination to_int
just_before it k set_to small near e h = ground arith
