-- ===== src/Server/Entry.antt =====
-- minigames-server/src/Main.cpp: `main` from its arguments to its exit code. The network backend that
-- it makes from its settings, and the closing of it, are parameters.
use rp_t_minigames_server.Prelude.{ℕ, Bool, true, false, List, Text, if◌then◌else◌}
use rp_t_minigames_server.Outcome.{Result, ok, err, Error, bind}
use rp_t_minigames_server.Messages.{is_exception}
use rp_t_minigames_server.Utils.CommandLine.{}
use rp_t_minigames_server.Board.Any.{AnyGame, acores, bermudes, canaries}
use rp_t_minigames_server.Board.Acores.{new_acores}
use rp_t_minigames_server.Board.Bermudes.{new_bermudes}
use rp_t_minigames_server.Board.Canaries.{new_canaries}
use rp_t_minigames_server.Server.{Network, new_server, serve}
use rp_t_minigames_server.Server.Options.{
  SelectedMinigame, selected_acores, selected_bermudes, selected_canaries, Settings, set_up,
  stopped, Failure, command_line, runtime, settings_for,
}

-- The games are made on start; none of the three constructors reads anything.
unfoldable pub game_for : SelectedMinigame → Result AnyGame
game_for selected_acores = bind new_acores (λ g. ok (acores g))
game_for selected_bermudes = bind new_bermudes (λ g. ok (bermudes g))
game_for selected_canaries = bind new_canaries (λ g. ok (canaries g))

-- The last `catch`: `RUNTIME_ERROR`. What is no exception aborts the process.
abbrev pub unhandled : Error → Result ℕ
unhandled e = if is_exception e then ok 2 else err e

-- The two `catch`es: `INVALID_ARGS` for the errors of the command line.
abbrev pub code_of_failure : Failure → Result ℕ
code_of_failure (command_line e) = ok 1
code_of_failure (runtime e) = unhandled e

module _ {N : Type 0} (io : Network N) (open_backend : Settings → Result N)
    (close_backend : N → Result N) where
  abbrev pub close_if : Bool → N → Result N
  close_if true network = close_backend network
  close_if false network = ok network

  abbrev pub served : ℕ → Result (N × AnyGame) → Result ℕ
  served rounds (ok (network, game)) = (serve io rounds (new_server network (λ u. game))).0
  served rounds (err e) = unhandled e

  unfoldable pub main_with : ℕ → Settings → Result ℕ
  unfolding game_for
  main_with rounds settings = served rounds (
      bind (open_backend settings) (λ network_backend.
        bind (close_if settings.testing network_backend)
          (λ network. bind (game_for settings.selected_minigame) (λ game. ok (network, game)))))

  unfoldable pub main : (Text → Bool) → ℕ → List Text → Result ℕ
  unfolding main_with
  main is_regular_file rounds arguments = elim (settings_for is_regular_file arguments) [
    | stopped failure ↦ code_of_failure failure
    | set_up settings ↦ main_with rounds settings
  ]
