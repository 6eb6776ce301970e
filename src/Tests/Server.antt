-- ===== src/Tests/Server.antt =====
-- A server over the websocket backend: a lobby with two players, a game, and events in two queues.
use rp_t_minigames_server.Prelude.{
  ℕ, ◌≡◌, ◌≢◌, ◌<◌, ◌^◌, ◌⊎◌, refl, true, false, none, some, not, ◌&&◌, [], ◌∷◌, Text, text,
  text_eq,
}
use rp_t_minigames_server.Outcome.{Error, ok, err, unfinished}
use rp_t_minigames_server.Utils.HandlingResult.{handled}
use rp_t_minigames_server.Utils.CommandLine.{Options, parsed, has, get}
use rp_t_minigames_server.Numbers.{stoull}
use rp_t_minigames_server.Core.Service.{check_event}
use rp_t_minigames_server.Core.Executor.{default_handlers, output_all}
use rp_t_minigames_server.Board.Any.{acores}
use rp_t_minigames_server.Board.Game.{Player}
use rp_t_minigames_server.Services.Lobby.{player_for}
use rp_t_minigames_server.Network.Websocket.{new_websocket_backend}
use rp_t_minigames_server.Server.{
  Server, new_server, input_output, pending_timers_of, services, loop_routine, is_game_running,
  on_left,
}
use rp_t_minigames_server.Server.Events.{protocol_of, output_all-empties}
use rp_t_minigames_server.Server.Routines.{Notified, Ended, loop_routine-Notified, on_left-Ended}
use rp_t_minigames_server.Server.Websockets.{Scheduled, websocket_network, output_event-ends}
use rp_t_minigames_server.Server.Options.{set_up, local_port_of, default_port}
use rp_t_minigames_server.Server.Options.Port.{local_port_of-lt}
use rp_t_minigames_server.Tests.Games.{first_acores}
use rp_t_minigames_server.Tests.Sessions.{game, lobby, lobby-IsSound}

abbrev pub started : Server Scheduled
started = record (new_server (new_websocket_backend, []) (λ _. acores first_acores)) {
  lobby = record lobby { minigame_session = game };
  game_was_running = true;
}

output_all-empties_example :
    let out =
      output_all
        (input_output websocket_network)
        (pending_timers_of websocket_network)
        default_handlers
        (protocol_of websocket_network)
        (services websocket_network)
        started in
    ((out.0 ≡ ok tt)
      × (check_event out.1.chat.service ≡ none)
      × (check_event out.1.lobby.minigame_session.service ≡ none)
      × (check_event out.1.lobby.service ≡ none))
    ⊎ ((e : Error) × (out.0 ≡ err e) × (e ≢ unfinished))
output_all-empties_example =
    output_all-empties websocket_network default_handlers started output_event-ends

loop_routine-Notified_example :
    ((loop_routine websocket_network started).0 ≡ ok tt)
    × ((loop_routine websocket_network started).1.game_was_running ≡ is_game_running started)
    × Notified websocket_network
        (started.game_was_running && not (is_game_running started))
        started
        (loop_routine websocket_network started).1
loop_routine-Notified_example = loop_routine-Notified websocket_network started

white-known : player_for 4 started.lobby ≡ ok Player.white
unfolding player_for
white-known = refl

on_left-Ended_example :
    Ended websocket_network Player.white (on_left websocket_network 4 handled started)
on_left-Ended_example =
    on_left-Ended websocket_network 4 handled Player.white started
      (record {
        counted = lobby-IsSound.counted;
        armed = lobby-IsSound.armed;
        quiet = lobby-IsSound.quiet;
      })
      white-known

abbrev port_given : Options
port_given = (text "port", some (text "8080")) ∷ []

port_read : local_port_of port_given ≡ set_up 8080
unfolding local_port_of has text_eq text get stoull
port_read = refl

local_port_of-lt_example :
    (8080 < 2 ^ 16)
    × (((has (text "port") port_given ≡ false) × (◌≡◌ {A = ℕ} 8080 default_port))
        ⊎ ((has (text "port") port_given ≡ true)
            × (port_argument : Text) × (get (text "port") port_given ≡ parsed port_argument)
            × (stoull port_argument ≡ ok 8080)))
local_port_of-lt_example = local_port_of-lt port_given 8080 port_read
