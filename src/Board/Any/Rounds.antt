-- ===== src/Board/Any/Rounds.antt =====
-- Every game that the calls on `BoardGame` can reach: it starts as one of the three games starts, and
-- goes on by moves and ends of rounds, the refused ones too.
use rp_t_minigames_server.Prelude.{
  ℕ, ◌≤◌, ◌<◌, ◌≡◌, refl, sym, ◌↔◌, ◌∙◌, inl, inr, true, false, arith, subst, ap, Bool-cases, some,
  none, List, not, ◌==◌,
}
use rp_t_minigames_server.Outcome.{Result, ok, err, check, bind-eq-ok, move_required}
use rp_t_minigames_server.Outcome.Ends.{Ends-state, Ends-result}
use rp_t_minigames_server.Board.Grid.{Coordinates, Square, new_grid}
use rp_t_minigames_server.Board.Grid.Cells.{count, count_line, count_lines}
use rp_t_minigames_server.Board.Grid.Shape.{new_grid-IsValid}
use rp_t_minigames_server.Board.Game.{
  Player, GridUpdate, BoardGame, new_board_game, next_round, victory_for, other_player,
}
use rp_t_minigames_server.Board.Game.Writes.{Tallied}
use rp_t_minigames_server.Board.Acores.{Acores, new_acores}
use rp_t_minigames_server.Board.Acores
use rp_t_minigames_server.Board.Bermudes
use rp_t_minigames_server.Board.Canaries
use rp_t_minigames_server.Board.Acores.Play.{acores_play-Ends}
use rp_t_minigames_server.Board.Bermudes.{Bermudes, new_bermudes}
use rp_t_minigames_server.Board.Bermudes.Play.{bermudes_play-Ends}
use rp_t_minigames_server.Board.Canaries.{Canaries, new_canaries}
use rp_t_minigames_server.Board.Canaries.Play.{canaries_play-Ends}
use rp_t_minigames_server.Board.Any.{
  AnyGame, acores, bermudes, canaries, base, next_round_any, play_any,
}

pub data Reachable : AnyGame → Type 0 where
  new_acores_game : (g : Acores) → new_acores ≡ ok g → Reachable (acores g)
  new_bermudes_game : (g : Bermudes) → new_bermudes ≡ ok g → Reachable (bermudes g)
  new_canaries_game : (g : Canaries) → new_canaries ≡ ok g → Reachable (canaries g)
  played : (from to : Coordinates) (g : AnyGame) → Reachable g → Reachable (play_any from to g).1
  round_ended : (g : AnyGame) → Reachable g → Reachable (next_round_any g).1

held : {A : Type 0} {a b : A} → ok a ≡ ok b → a ≡ b
held h = cc

-- A game that the base class's constructor makes, when the counts given are those of the grid given.
new_board_game-Tallied :
    (conf : List (List Square)) (whites blacks threshold : ℕ)
    → whites ≡ count Square.white (record { squares_matrix = conf })
    → blacks ≡ count Square.black (record { squares_matrix = conf })
    → (b : BoardGame) → new_board_game conf whites blacks threshold ≡ ok b
    → Tallied b
unfolding new_board_game
new_board_game-Tallied conf whites blacks threshold w k b e =
    let (g, made, f) = bind-eq-ok (new_grid conf) _ e in
    let (u, c, h) = bind-eq-ok (check (not (threshold == 0)) _) _ f in
    let (same, v) = (new_grid-IsValid conf g).0 made in
    subst Tallied (held h) (record {
      valid = v;
      whites = w ∙ ap (count Square.white) (sym same);
      blacks = k ∙ ap (count Square.black) (sym same);
    })

pub new_acores-Tallied : (g : Acores) → new_acores ≡ ok g → Tallied g.board
unfolding new_acores count count_line count_lines
new_acores-Tallied g e =
    let (b, made, f) = bind-eq-ok (new_board_game Acores.initial_grid 12 12 1) _ e in
    subst (λ (h : Acores). Tallied h.board) (held f)
      (new_board_game-Tallied Acores.initial_grid 12 12 1 refl refl b made)

pub new_bermudes-Tallied : (g : Bermudes) → new_bermudes ≡ ok g → Tallied g.board
unfolding new_bermudes count count_line count_lines
new_bermudes-Tallied g e =
    let (b, made, f) = bind-eq-ok (new_board_game Bermudes.initial_grid 27 27 6) _ e in
    subst (λ (h : Bermudes). Tallied h.board) (held f)
      (new_board_game-Tallied Bermudes.initial_grid 27 27 6 refl refl b made)

pub new_canaries-Tallied : (g : Canaries) → new_canaries ≡ ok g → Tallied g.board
unfolding new_canaries count count_line count_lines
new_canaries-Tallied g e =
    let (b, made, f) = bind-eq-ok (new_board_game Canaries.initial_grid 8 8 2) _ e in
    subst (λ (h : Canaries). Tallied h.board) (held f)
      (new_board_game-Tallied Canaries.initial_grid 8 8 2 refl refl b made)

next_round-Tallied : (b : BoardGame) → Tallied b → Tallied (next_round b).1
unfolding next_round
next_round-Tallied b t = elim (Bool-cases b.moved_flag) [
  | inl m ↦ rw m (record { valid = t.valid; whites = t.whites; blacks = t.blacks })
  | inr m ↦ rw m (record { valid = t.valid; whites = t.whites; blacks = t.blacks })
]

pub play_any-Tallied :
    (from to : Coordinates) (g : AnyGame) → Tallied (base g) → Tallied (base (play_any from to g).1)
unfolding play_any
play_any-Tallied from to (acores g) t =
    Ends-state (λ h. Tallied h.board) g _ (acores_play-Ends from to g t) t (λ u g' q. q.0.0)
play_any-Tallied from to (bermudes g) t =
    Ends-state (λ h. Tallied h.board) g _ (bermudes_play-Ends from to g t) t (λ u g' q. q.0.0)
play_any-Tallied from to (canaries g) t =
    Ends-state (λ h. Tallied h.board) g _ (canaries_play-Ends from to g t) t (λ u g' q. q.0.0)

pub next_round_any-Tallied : (g : AnyGame) → Tallied (base g) → Tallied (base (next_round_any g).1)
unfolding next_round_any Acores.next_round_acores Bermudes.next_round_bermudes
next_round_any-Tallied (acores g) t = next_round-Tallied g.board t
next_round_any-Tallied (bermudes g) t = next_round-Tallied g.board t
next_round_any-Tallied (canaries g) t = next_round-Tallied g.board t

-- In every game that can be reached the grid is a valid one, and the two counters, of 32 bits, are the
-- numbers of white and of black pawns on it: none has wrapped around.
pub Reachable-Tallied : (g : AnyGame) → Reachable g → Tallied (base g)
unfolding next_round_any play_any
Reachable-Tallied _ (new_acores_game g e) = new_acores-Tallied g e
Reachable-Tallied _ (new_bermudes_game g e) = new_bermudes-Tallied g e
Reachable-Tallied _ (new_canaries_game g e) = new_canaries-Tallied g e
Reachable-Tallied _ (played from to g r) = play_any-Tallied from to g (Reachable-Tallied g r)
Reachable-Tallied _ (round_ended g r) = next_round_any-Tallied g (Reachable-Tallied g r)

next_round-turn :
    (b : BoardGame)
    → b.moved_flag ≡ true
    → next_round b ≡ (
      ok (other_player b.current_player),
      record b { moved_flag = false; current_player = other_player b.current_player },
    )
unfolding next_round
next_round-turn b m = rw m refl

next_round-refused : (b : BoardGame) → b.moved_flag ≡ false → (next_round b).0 ≡ err move_required
unfolding next_round
next_round-refused b m = rw m refl

next_round-unmoved : (b : BoardGame) → b.moved_flag ≡ false → (next_round b).1 ≡ b
unfolding next_round
next_round-unmoved b m = rw m refl

-- The call on a game is the base class's call on its base part.
next_round_any-base :
    (g : AnyGame)
    → ((next_round_any g).0 ≡ (next_round (base g)).0)
      × (base (next_round_any g).1 ≡ (next_round (base g)).1)
unfolding next_round_any Acores.next_round_acores Bermudes.next_round_bermudes
next_round_any-base (acores g) = (refl, refl)
next_round_any-base (bermudes g) = (refl, refl)
next_round_any-base (canaries g) = (refl, refl)

-- What a move that returns says of the turn.
Moved : AnyGame → GridUpdate → AnyGame → Type 0
Moved g u g' = ((base g').current_player ≡ (base g).current_player) × ((base g').moved_flag ≡ true)

play_any-Moved :
    (from to : Coordinates) (g : AnyGame) (u : GridUpdate)
    → Tallied (base g)
    → (play_any from to g).0 ≡ ok u
    → Moved g u (play_any from to g).1
unfolding play_any Moved
play_any-Moved from to (acores g) u t e =
    let q = Ends-result g _ (acores_play-Ends from to g t) e in (q.0.1, q.1)
play_any-Moved from to (bermudes g) u t e =
    let q = Ends-result g _ (bermudes_play-Ends from to g t) e in (q.0.1, q.1)
play_any-Moved from to (canaries g) u t e =
    let q = Ends-result g _ (canaries_play-Ends from to g t) e in (q.0.1, q.1)

-- In a game that can be reached, after a move that returns: the end of the round returns the opponent
-- of the player who had the turn, hands the turn over, and cannot be followed by another end of round
-- without a move.
pub next_round-play :
    (from to : Coordinates) (g : AnyGame) (u : GridUpdate)
    → Reachable g
    → (play_any from to g).0 ≡ ok u
    → let after_move = (play_any from to g).1 in
      let ended = next_round_any after_move in
      (ended.0 ≡ ok (other_player (base g).current_player))
      × ((base ended.1).current_player ≡ other_player (base g).current_player)
      × ((next_round_any ended.1).0 ≡ err move_required)
unfolding Moved
next_round-play from to g u reached e =
    let g' = (play_any from to g).1 in
    let (same, moved) = play_any-Moved from to g u (Reachable-Tallied g reached) e in
    let (returned, left) = next_round_any-base g' in
    let turn = next_round-turn (base g') moved in
    let there = left ∙ ap (λ (x : Result Player × BoardGame). x.1) turn in
    (
      returned
          ∙ ap (λ (x : Result Player × BoardGame). x.0) turn
          ∙ ap (λ p. ok (other_player p)) same,
      ap (λ (b : BoardGame). b.current_player) there ∙ ap other_player same,
      (next_round_any-base (next_round_any g').1).0
          ∙ next_round-refused (base (next_round_any g').1)
              (ap (λ (b : BoardGame). b.moved_flag) there),
    )

-- After a move that returns, the player who has the turn may end the round.
pub play_any-turn :
    (from to : Coordinates) (g : AnyGame) (u : GridUpdate)
    → Reachable g
    → (play_any from to g).0 ≡ ok u
    → ((base (play_any from to g).1).current_player ≡ (base g).current_player)
      × ((base (play_any from to g).1).moved_flag ≡ true)
unfolding Moved
play_any-turn from to g u reached e = play_any-Moved from to g u (Reachable-Tallied g reached) e

-- The end of a round in which there was a move.
pub next_round_any-turn :
    (g : AnyGame)
    → (base g).moved_flag ≡ true
    → ((next_round_any g).0 ≡ ok (other_player (base g).current_player))
      × ((base (next_round_any g).1).current_player ≡ other_player (base g).current_player)
      × ((base (next_round_any g).1).moved_flag ≡ false)
next_round_any-turn g moved =
    let (returned, left) = next_round_any-base g in
    let turn = next_round-turn (base g) moved in
    let there = left ∙ ap (λ (x : Result Player × BoardGame). x.1) turn in
    (
      returned ∙ ap (λ (x : Result Player × BoardGame). x.0) turn,
      ap (λ (b : BoardGame). b.current_player) there,
      ap (λ (b : BoardGame). b.moved_flag) there,
    )

-- The end of a round without a move.
pub next_round_any-refused :
    (g : AnyGame)
    → (base g).moved_flag ≡ false
    → ((next_round_any g).0 ≡ err move_required) × (base (next_round_any g).1 ≡ base g)
next_round_any-refused g still =
    let (returned, left) = next_round_any-base g in
    (returned ∙ next_round-refused (base g) still, left ∙ next_round-unmoved (base g) still)

-- With counters that are the numbers of pawns on the grid: Black has won when the white pawns are fewer
-- than the threshold; White when they are not and the black ones are fewer; else nobody.
pub victory_for-count :
    (b : BoardGame)
    → Tallied b
    → ((victory_for b ≡ some Player.black)
        ↔ (count Square.white b.game_grid < b.pawns_count_threshold))
      × ((victory_for b ≡ some Player.white) ↔ (
          (b.pawns_count_threshold ≤ count Square.white b.game_grid)
          × (count Square.black b.game_grid < b.pawns_count_threshold)))
      × ((victory_for b ≡ none) ↔ (
          (b.pawns_count_threshold ≤ count Square.white b.game_grid)
          × (b.pawns_count_threshold ≤ count Square.black b.game_grid)))
unfolding victory_for
victory_for-count b t = (
  (λ e. ground (arith, t.whites), λ l. ground (arith, t.whites)),
  (λ e. ground (arith, t.whites, t.blacks), λ l. ground (arith, t.whites, t.blacks)),
  (λ e. ground (arith, t.whites, t.blacks), λ l. ground (arith, t.whites, t.blacks)),
)
