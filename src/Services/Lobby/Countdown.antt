-- ===== src/Services/Lobby/Countdown.antt =====
-- The end of the countdown: the session of the minigame that it starts.
use rp_t_minigames_server.Prelude.{◌≡◌, refl, false, [], ◌∷◌, Option, none, some, text}
use rp_t_minigames_server.Outcome.{ok, err}
use rp_t_minigames_server.Core.Timer
use rp_t_minigames_server.Core.Timer.{pending, run_all, check_state}
use rp_t_minigames_server.Board.Any.{AnyGame}
use rp_t_minigames_server.Services.Minigame
use rp_t_minigames_server.Services.Lobby.{
  LobbyService, Entrant, start_minigame, trigger_countdown, run_routine, start_session,
}

-- A lobby with both seats taken, whose countdown is pending for the start of a session.
abbrev pub counting_down : Entrant → Entrant → Option AnyGame → LobbyService → LobbyService
counting_down white black game l = record l {
  white_player_actor = some white;
  black_player_actor = some black;
  minigame_session = record (l.minigame_session) { current_game = game };
  starting_countdown = record (l.starting_countdown) {
    current_state = pending;
    trigger_callbacks = start_minigame ∷ [];
  };
}

-- When the pending countdown of a lobby with two seated players triggers: without a running game, a new
-- game starts between the two, and both have to get ready again, with nobody counted as ready; with a
-- running game, the trigger throws the error of a second start.
pub trigger_countdown-starts :
    (white black : Entrant) (g : AnyGame) (l : LobbyService)
    → let ended = trigger_countdown (counting_down white black none l) in
      (ended.0 ≡ ok tt)
      × (ended.1.minigame_session.current_game ≡ some (l.minigame_session.rpt_minigame_provider tt))
      × (ended.1.minigame_session.white_player_actor ≡ white.actor_uid)
      × (ended.1.minigame_session.black_player_actor ≡ black.actor_uid)
      × (ended.1.ready_players ≡ 0)
      × (ended.1.white_player_actor ≡ some (record white { is_ready = false }))
      × (ended.1.black_player_actor ≡ some (record black { is_ready = false }))
      × ((trigger_countdown (counting_down white black (some g) l)).0
          ≡ err (Minigame.bad_state (text "Game is already running")))
unfolding trigger_countdown Timer.trigger run_all check_state run_routine start_session
    Minigame.start
trigger_countdown-starts white black g l = (refl, refl, refl, refl, refl, refl, refl, refl)
