-- ===== src/Board/Any.antt =====
-- The virtual methods of `BoardGame` (minigames-services/include/Minigames-Services/BoardGame.hpp):
-- a game of any of the three classes, and the calls that its class decides.
pub mod Rounds
use rp_t_minigames_server.Prelude.{Bool, Option}
use rp_t_minigames_server.Outcome.{Result, ok, Action}
use rp_t_minigames_server.Board.Grid.{Coordinates}
use rp_t_minigames_server.Board.Game.{Player, GridUpdate, BoardGame, next_round, victory_for}
use rp_t_minigames_server.Board.Acores.{Acores}
use rp_t_minigames_server.Board.Acores
use rp_t_minigames_server.Board.Bermudes.{Bermudes}
use rp_t_minigames_server.Board.Bermudes
use rp_t_minigames_server.Board.Canaries.{Canaries}
use rp_t_minigames_server.Board.Canaries

pub data AnyGame : Type 0 where
  acores : Acores → AnyGame
  bermudes : Bermudes → AnyGame
  canaries : Canaries → AnyGame

-- The base class part.
abbrev pub base : AnyGame → BoardGame
base (acores g) = g.board
base (bermudes g) = g.board
base (canaries g) = g.board

-- The result of a call on a game of one class, as one on a game of any.
abbrev pub held_as : {A G : Type 0} → (G → AnyGame) → Result A × G → Result A × AnyGame
held_as make x = (x.0, make x.1)

unfoldable pub next_round_any : Action AnyGame Player
next_round_any (acores g) = held_as acores (Acores.next_round_acores g)
next_round_any (bermudes g) = held_as bermudes (Bermudes.next_round_bermudes g)
next_round_any (canaries g) = held_as canaries (Canaries.on_board next_round g)

unfoldable pub play_any : Coordinates → Coordinates → Action AnyGame GridUpdate
play_any from to (acores g) = held_as acores (Acores.play from to g)
play_any from to (bermudes g) = held_as bermudes (Bermudes.play from to g)
play_any from to (canaries g) = held_as canaries (Canaries.play from to g)

abbrev pub is_round_terminated_any : AnyGame → Bool
is_round_terminated_any (acores g) = Acores.is_round_terminated g
is_round_terminated_any (bermudes g) = Bermudes.is_round_terminated g
is_round_terminated_any (canaries g) = Canaries.is_round_terminated g

unfoldable pub victory_for_any : AnyGame → Result (Option Player)
victory_for_any (acores g) = ok (victory_for g.board)
victory_for_any (bermudes g) = ok (victory_for g.board)
victory_for_any (canaries g) = Canaries.victory_for_canaries g
