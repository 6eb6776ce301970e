-- ===== src/Services/Minigame/Moves.antt =====
-- What `handleMove` and `terminateRound` do to the game that runs.
use rp_t_minigames_server.Prelude.{
  ◌≡◌, refl, ◌∙◌, ap, Bool, true, false, List, [], ◌∷◌, ◌++◌, Option, none, some, Text, text,
}
use rp_t_minigames_server.Outcome.{Result, ok, after, Action, gets, ◌>>=◌, ◌>>◌}
use rp_t_minigames_server.Core.Timer.{ServiceContext}
use rp_t_minigames_server.Core.Service.{Service, emit_event}
use rp_t_minigames_server.Board.Grid.{Coordinates}
use rp_t_minigames_server.Board.Game.{Player, SquareUpdate, GridUpdate, other_player}
use rp_t_minigames_server.Board.Any.{
  AnyGame, base, is_round_terminated_any, victory_for_any, next_round_any, play_any,
}
use rp_t_minigames_server.Board.Any.Rounds.{Reachable, play_any-turn, next_round_any-turn}
use rp_t_minigames_server.Services.Minigame.{
  MinigameService, terminate_round, sync_squares, conclude_move, handle_move, parse_move, stop,
  emit, moved_command, on_game, pawn_counts_command, player_word,
}

-- The service with a game.
abbrev pub playing : AnyGame → MinigameService → MinigameService
playing g m = record m { current_game = some g }

-- The game once a move has led from `g` to `g'`, by the winner and by whether the round is terminated.
abbrev pub AfterMove : AnyGame → AnyGame → Option Player → Bool → Option AnyGame → Type 0
AfterMove g g' (some winner) terminated o = o ≡ none
AfterMove g g' none true o =
    (next : AnyGame) × (o ≡ some next)
    × ((base next).current_player ≡ other_player (base g).current_player)
    × ((base next).moved_flag ≡ false)
AfterMove g g' none false o =
    (o ≡ some g')
    × ((base g').current_player ≡ (base g).current_player)
    × ((base g').moved_flag ≡ true)

-- The service with other events.
abbrev emitting : ServiceContext → Service → MinigameService → MinigameService
emitting c s m = record m { run_context = c; service = s }

sync_squares-emits :
    (updates : List SquareUpdate) (m : MinigameService)
    → (c : ServiceContext) × (s : Service) × (sync_squares updates m ≡ (ok tt, emitting c s m))
unfolding sync_squares
sync_squares-emits [] m = (m.run_context, m.service, refl)
sync_squares-emits (u ∷ updates) m = sync_squares-emits updates _

terminate_round-turn :
    (g : AnyGame) (p : Player) (m : MinigameService)
    → (next_round_any g).0 ≡ ok p
    → (c : ServiceContext) × (s : Service) × (terminate_round (playing g m)
        ≡ (ok tt, emitting c s (playing (next_round_any g).1 m)))
unfolding terminate_round
terminate_round-turn g p m e =
    let (c, s) = emit_event (text "ROUND_FOR " ++ player_word p) [] (m.run_context, m.service) in
    (c, s, rw e refl)

conclude_move-AfterMove :
    (from to : Coordinates) (g : AnyGame) (u : GridUpdate) (v : Option Player) (t : Bool)
    (m : MinigameService)
    → Reachable g
    → (play_any from to g).0 ≡ ok u
    → (m' : MinigameService) × (conclude_move v t (playing (play_any from to g).1 m) ≡ (ok tt, m'))
      × AfterMove g (play_any from to g).1 v t m'.current_game
unfolding conclude_move stop
conclude_move-AfterMove from to g u (some winner) t m r e = (_, refl, refl)
conclude_move-AfterMove from to g u none true m r e =
    let g' = (play_any from to g).1 in
    let (same, moved) = play_any-turn from to g u r e in
    let (returned, turn, flag) = next_round_any-turn g' moved in
    let (c, s, done) = terminate_round-turn g' (other_player (base g').current_player) m returned in
    (
      emitting c s (playing (next_round_any g').1 m),
      done,
      ((next_round_any g').1, refl, turn ∙ ap other_player same, flag),
    )
conclude_move-AfterMove from to g u none false m r e =
    let (same, moved) = play_any-turn from to g u r e in (_, refl, (refl, same, moved))

-- What `handleMove` does once the squares are synchronized.
abbrev end_move : GridUpdate → Action MinigameService (Unit {0})
end_move u = do
  emit (moved_command u) []
  counts ← on_game (gets pawn_counts_command)
  emit counts []
  possible_winner ← on_game (λ g. (victory_for_any g, g))
  terminated ← on_game (gets is_round_terminated_any)
  conclude_move possible_winner terminated

handle_move-steps :
    (m : MinigameService) (g : AnyGame) (args : Text) (from to : Coordinates) (u : GridUpdate)
    → parse_move args ≡ ok (from, to)
    → is_round_terminated_any g ≡ false
    → (play_any from to g).0 ≡ ok u
    → handle_move args (playing g m)
      ≡ (sync_squares u.updated_squares >> end_move u) (playing (play_any from to g).1 m)
unfolding handle_move
handle_move-steps m g args from to u parsed going played = rw (parsed, going, played) refl

end_move-steps :
    (m : MinigameService) (g : AnyGame) (u : GridUpdate) (v : Option Player)
    → victory_for_any g ≡ ok v
    → (c : ServiceContext) × (s : Service) × (end_move u (playing g m)
        ≡ conclude_move v (is_round_terminated_any g) (playing g (emitting c s m)))
end_move-steps m g u v won =
    let (c, s) =
      emit_event (pawn_counts_command g) []
        (emit_event (moved_command u) [] (m.run_context, m.service)) in
    (c, s, rw won refl)

pub handle_move-AfterMove :
    (m : MinigameService) (g : AnyGame) (args : Text) (from to : Coordinates) (u : GridUpdate)
    (v : Option Player)
    → Reachable g
    → parse_move args ≡ ok (from, to)
    → is_round_terminated_any g ≡ false
    → (play_any from to g).0 ≡ ok u
    → victory_for_any (play_any from to g).1 ≡ ok v
    → (m' : MinigameService) × (handle_move args (playing g m) ≡ (ok tt, m'))
      × AfterMove g
          (play_any from to g).1
          v
          (is_round_terminated_any (play_any from to g).1)
          m'.current_game
handle_move-AfterMove m g args from to u v r parsed going played won =
    let g' = (play_any from to g).1 in
    let (c, s, synced) = sync_squares-emits u.updated_squares (playing g' m) in
    let (c', s', ended) = end_move-steps (emitting c s m) g' u v won in
    let (m', concluded, result) =
      conclude_move-AfterMove from to g u v (is_round_terminated_any g') (emitting c' s' m) r
        played in
    (
      m',
      handle_move-steps m g args from to u parsed going played
          ∙ ap
              (λ (x : Result (Unit {0}) × MinigameService).
                after x.0 (λ (done : Unit {0}). end_move u x.1) x.1)
              synced
          ∙ ended
          ∙ concluded,
      result,
    )
