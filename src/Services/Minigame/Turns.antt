-- ===== src/Services/Minigame/Turns.antt =====
-- Who may act on a game, and how a session starts and stops.
use rp_t_minigames_server.Prelude.{
  ℕ, ◌≡◌, refl, ◌∙◌, ap, ◌⊎◌, inl, inr, false, Bool-cases, Option-cases, ==→≡, ◌==◌, [], ◌++◌,
  Option, none, some, Text, text,
}
use rp_t_minigames_server.Outcome.{Result, ok, err}
use rp_t_minigames_server.Numbers.{to_string}
use rp_t_minigames_server.Utils.HandlingResult.{refused}
use rp_t_minigames_server.Core.Service.{emit_event}
use rp_t_minigames_server.Board.Game.{current_round}
use rp_t_minigames_server.Board.Any.{AnyGame, base}
use rp_t_minigames_server.Services.Minigame.{
  MinigameService, bad_state, start, stop, handle_in_game, handle_with, handle_request_command,
  expected_actor,
}

-- What a request may do: nothing but be refused, or act for the player who has the turn.
abbrev pub MayAct : ℕ → Text → MinigameService → Type 0
MayAct actor sr_command_data m =
    ((reason : Text) × (handle_request_command actor sr_command_data m ≡ (ok (refused reason), m)))
    ⊎ ((g : AnyGame) × (m.current_game ≡ some g)
        × (actor ≡ expected_actor (current_round (base g)) m))

in_game-refused :
    (g : AnyGame) (actor : ℕ) (request : Text) (m : MinigameService)
    → (actor == expected_actor (current_round (base g)) m) ≡ false
    → handle_in_game g actor request m ≡ (ok (refused (text "This is not your turn")), m)
unfolding handle_in_game
in_game-refused g actor request m other = rw other refl

in_game-MayAct :
    (g : AnyGame) (actor : ℕ) (sr_command_data : Text) (m : MinigameService)
    → m.current_game ≡ some g
    → MayAct actor sr_command_data m
unfolding handle_request_command
in_game-MayAct g actor sr_command_data m e =
    elim (Bool-cases (actor == expected_actor (current_round (base g)) m)) [
      | inl yes_turn ↦ inr (g, e, ==→≡ _ _ yes_turn)
      | inr other ↦ inl (
        text "This is not your turn",
        ap (λ o. handle_with o actor sr_command_data m) e
            ∙ in_game-refused g actor sr_command_data m other,
      )
    ]

-- A request to the service is refused with nothing changed, unless a game is running and the request
-- comes from the actor of the player who has the turn.
pub handle_request_command-MayAct :
    (actor : ℕ) (sr_command_data : Text) (m : MinigameService) → MayAct actor sr_command_data m
unfolding handle_request_command
handle_request_command-MayAct actor sr_command_data m = elim (Option-cases m.current_game) [
  | inl stopped ↦ inl (text "Game is stopped", rw stopped refl)
  | inr (g, e) ↦ in_game-MayAct g actor sr_command_data m e
]

-- What a start and a stop do, by the game that the service has.
abbrev pub Started :
    ℕ → ℕ → MinigameService → Option AnyGame → Result (Unit {0}) × MinigameService → Type 0
Started white black m none x =
    (x.0 ≡ ok tt)
    × (x.1.current_game ≡ some (m.rpt_minigame_provider tt))
    × (x.1.white_player_actor ≡ white)
    × (x.1.black_player_actor ≡ black)
    × ((x.1.run_context, x.1.service)
        ≡ emit_event (text "ROUND_FOR WHITE") [] (
            emit_event (text "START " ++ to_string white ++ text " " ++ to_string black) []
              (m.run_context, m.service)))
Started white black m (some g) x = x ≡ (err (bad_state (text "Game is already running")), m)

abbrev pub Stopped : MinigameService → Option AnyGame → Result (Unit {0}) × MinigameService → Type 0
Stopped m none x = x ≡ (err (bad_state (text "Game is not running")), m)
Stopped m (some g) x =
    (x.0 ≡ ok tt)
    × (x.1.current_game ≡ none)
    × ((x.1.run_context, x.1.service) ≡ emit_event (text "STOP") [] (m.run_context, m.service))

start-Started :
    (white black : ℕ) (m : MinigameService) (o : Option AnyGame)
    → m.current_game ≡ o
    → Started white black m o (start white black m)
unfolding start
start-Started white black m none h = (rw h refl, rw h refl, rw h refl, rw h refl, rw h refl)
start-Started white black m (some g) h = rw h refl

stop-Stopped :
    (m : MinigameService) (o : Option AnyGame) → m.current_game ≡ o → Stopped m o (stop m)
unfolding stop
stop-Stopped m none h = rw h refl
stop-Stopped m (some g) h = (rw h refl, rw h refl, rw h refl)

-- Starting: on a service without a game it returns, the game is a new one, the actors are those given,
-- and START and ROUND_FOR WHITE are emitted to everyone, in this order; on a service with a game it
-- throws and changes nothing. Stopping: on a service with a game it returns, the game is gone and STOP
-- is emitted to everyone; on one without it throws and changes nothing.
pub start-stop-Sessions :
    (white black : ℕ) (m : MinigameService)
    → Started white black m m.current_game (start white black m) × Stopped m m.current_game (stop m)
start-stop-Sessions white black m =
    (start-Started white black m m.current_game refl, stop-Stopped m m.current_game refl)
