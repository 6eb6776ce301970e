-- ===== src/Server/Routines.antt =====
-- What the handler of `LeftEvent` and the loop's routine of the entry point do.
use rp_t_minigames_server.Prelude.{
  ℕ, ◌≡◌, refl, sym, ◌∙◌, subst, ap, Bool, true, false, not, ◌&&◌, List, [], ◌∷◌, none, text,
  if◌then◌else◌,
}
use rp_t_minigames_server.Outcome.{Result, ok, err, after}
use rp_t_minigames_server.Utils.HandlingResult.{HandlingResult}
use rp_t_minigames_server.Core.Service.{emit_event}
use rp_t_minigames_server.Board.Game.{Player}
use rp_t_minigames_server.Services.Minigame
use rp_t_minigames_server.Services.Minigame.{MinigameService}
use rp_t_minigames_server.Services.Lobby
use rp_t_minigames_server.Services.Lobby.{
  LobbyService, Routine, start_minigame, erase_pending, cancel_countdown_of, entrant, player_for,
  notify_waiting, remove_actor, on_minigame,
}
use rp_t_minigames_server.Services.Lobby.Seats.{IsSound}
use rp_t_minigames_server.Services.Lobby.Departures.{remove_actor-seated}
use rp_t_minigames_server.Server.{
  Network, Server, apply_routines, apply_routine, on_lobby, is_game_running, loop_routine, on_left,
  notify_if, stop_if,
}

notify_waiting-waiting :
    (l : LobbyService)
    → Minigame.is_started l.minigame_session ≡ false
    → notify_waiting l ≡ Lobby.emit (text "WAITING") [] l
unfolding notify_waiting
notify_waiting-waiting l h = rw h refl

-- The session without a game, and the lobby with it.
abbrev session_over : LobbyService → MinigameService
session_over l =
    (Minigame.emit (text "STOP") []
      (record (l.minigame_session) { run_context = l.run_context; current_game = none })).1

abbrev with_session : LobbyService → MinigameService → LobbyService
with_session l m = record l { run_context = m.run_context; minigame_session = m }

stop_session :
    (l : LobbyService)
    → Minigame.is_started l.minigame_session ≡ true
    → on_minigame Minigame.stop l ≡ (ok tt, with_session l (session_over l))
unfolding Minigame.stop
stop_session l h = rw h refl

without_routines-IsSound : (l : LobbyService) → IsSound l → IsSound (record l { routines_run = [] })
without_routines-IsSound l s = record { counted = s.counted; armed = s.armed; quiet = s.quiet }

without_routines-entrant :
    (p : Player) (l : LobbyService) → entrant p (record l { routines_run = [] }) ≡ entrant p l
without_routines-entrant Player.white l = refl
without_routines-entrant Player.black l = refl

module _ {N : Type 0} (io : Network N) where
  -- The routines touch neither the services nor what the loop's routine keeps.
  pub apply_routines-lobby :
      (routines : List Routine) (s : Server N)
      → ((apply_routines io routines s).lobby ≡ s.lobby)
        × ((apply_routines io routines s).game_was_running ≡ s.game_was_running)
  unfolding apply_routines
  apply_routines-lobby [] s = (refl, refl)
  apply_routines-lobby (start_minigame ∷ routines) s = apply_routines-lobby routines s
  apply_routines-lobby (erase_pending t ∷ routines) s =
      apply_routines-lobby routines (apply_routine io (erase_pending t) s)
  apply_routines-lobby (cancel_countdown_of t ∷ routines) s =
      apply_routines-lobby routines (apply_routine io (cancel_countdown_of t) s)

  abbrev set_lobby : LobbyService → Server N → Server N
  set_lobby l s = record s { lobby = record l { routines_run = [] } }

  -- The server after a call on the lobby that left it as `l`.
  abbrev settled : LobbyService → Server N → Server N
  settled l s = apply_routines io l.routines_run (set_lobby l s)

  on_lobby-settled :
      {A : Type 0} (act : LobbyService → Result A × LobbyService) (s : Server N)
      {r : Result A × LobbyService}
      → act s.lobby ≡ r
      → on_lobby io act s ≡ (r.0, settled r.1 s)
  unfolding on_lobby
  on_lobby-settled act s e = ap (λ x. (x.0, settled x.1 s)) e

  -- The event that the lobby emits when a game is over.
  abbrev pub Notified : Bool → Server N → Server N → Type 0
  Notified over s s' = (s'.lobby.run_context, s'.lobby.service) ≡ (
      if over
      then emit_event (text "WAITING") [] (s.lobby.run_context, s.lobby.service)
      else (s.lobby.run_context, s.lobby.service))

  notify_if-Notified :
      (over : Bool) (s : Server N)
      → (over ≡ true → is_game_running s ≡ false)
      → ((notify_if io over s).0 ≡ ok tt) × Notified over s (notify_if io over s).1
  notify_if-Notified false s h = (refl, refl)
  notify_if-Notified true s h =
      let l = (Lobby.emit (text "WAITING") [] s.lobby).1 in
      let done = on_lobby-settled notify_waiting s (notify_waiting-waiting s.lobby (h refl)) in
      let kept : (settled l s).lobby ≡ record l { routines_run = [] } =
        (apply_routines-lobby l.routines_run (set_lobby l s)).0 in
      (
        ap (λ (x : Result (Unit {0}) × Server N). x.0) done,
        ap (λ (x : Result (Unit {0}) × Server N). (x.1.lobby.run_context, x.1.lobby.service)) done
            ∙ ap (λ (k : LobbyService). (k.run_context, k.service)) kept,
      )

  over-idle : (was running : Bool) → (was && not running) ≡ true → running ≡ false
  over-idle true true h = cc
  over-idle true false h = refl
  over-idle false running h = cc

  remembered :
      (g : Server N → Server N) (x : Result (Unit {0}) × Server N)
      → x.0 ≡ ok tt
      → after x.0 (λ (u : Unit {0}). (ok tt, g x.1)) x.1 ≡ (ok tt, g x.1)
  remembered g (ok a, s) h = refl
  remembered g (err e, s) h = cc

  -- The routine of the executor's loop always returns. It remembers whether a game is running now, and
  -- it emits WAITING to everyone, the lobby's only new event, exactly when a game was running at the end
  -- of the last round and none is now.
  pub loop_routine-Notified :
      (s : Server N)
      → ((loop_routine io s).0 ≡ ok tt)
        × ((loop_routine io s).1.game_was_running ≡ is_game_running s)
        × Notified (s.game_was_running && not (is_game_running s)) s (loop_routine io s).1
  unfolding loop_routine
  loop_routine-Notified s =
      let over = s.game_was_running && not (is_game_running s) in
      let (returned, notified) =
        notify_if-Notified over s (over-idle s.game_was_running (is_game_running s)) in
      subst
        (λ (x : Result (Unit {0}) × Server N).
          (x.0 ≡ ok tt) × (x.1.game_was_running ≡ is_game_running s) × Notified over s x.1)
        (sym (
          remembered (λ t. record t { game_was_running = is_game_running s }) (notify_if io over s)
            returned))
        (refl, refl, notified)

  -- What the departure of the player `p` leaves of the lobby.
  abbrev Left : Player → LobbyService → Type 0
  Left p l = (Minigame.is_started l.minigame_session ≡ false) × (entrant p l ≡ none) × IsSound l

  abbrev pub Ended : Player → Result (Unit {0}) × Server N → Type 0
  Ended p x =
      (x.0 ≡ ok tt)
      × (is_game_running x.1 ≡ false)
      × (entrant p x.1.lobby ≡ none)
      × IsSound x.1.lobby

  over-Left :
      (p : Player) (l : LobbyService)
      → entrant p l ≡ none
      → IsSound l
      → Left p (record (with_session l (session_over l)) { routines_run = [] })
  over-Left Player.white l free s =
      (refl, free, record { counted = s.counted; armed = s.armed; quiet = s.quiet })
  over-Left Player.black l free s =
      (refl, free, record { counted = s.counted; armed = s.armed; quiet = s.quiet })

  ended :
      (p : Player) (s : Server N) {l : LobbyService} → s.lobby ≡ l → Left p l → Ended p (ok tt, s)
  ended p s e d = let (over, free, sound) = subst (Left p) (sym e) d in (refl, over, free, sound)

  stop_if-Ended :
      (running : Bool) (p : Player) (s : Server N)
      → is_game_running s ≡ running
      → IsSound s.lobby
      → entrant p s.lobby ≡ none
      → Ended p (stop_if io running s)
  stop_if-Ended false p s h sound free = (refl, h, free, sound)
  stop_if-Ended true p s h sound free =
      let l = with_session s.lobby (session_over s.lobby) in
      subst (Ended p)
        (sym (on_lobby-settled (on_minigame Minigame.stop) s (stop_session s.lobby h)))
        (ended p (settled l s) (apply_routines-lobby l.routines_run (set_lobby l s)).0
          (over-Left p s.lobby free sound))

  -- In a sound lobby, when an actor who has a seat leaves the server, the handler returns: no game is
  -- running any more, the seat is free, and the lobby is sound.
  pub on_left-Ended :
      (actor : ℕ) (reason : HandlingResult) (p : Player) (s : Server N)
      → IsSound s.lobby
      → player_for actor s.lobby ≡ ok p
      → Ended p (on_left io actor reason s)
  unfolding on_left
  on_left-Ended actor reason p s sound known =
      let (l, removed, gone, sound') = remove_actor-seated actor p s.lobby sound known in
      let kept : (settled l s).lobby ≡ record l { routines_run = [] } =
        (apply_routines-lobby l.routines_run (set_lobby l s)).0 in
      let done = on_lobby-settled (remove_actor actor) s removed in
      subst
        (λ (x : Result (Unit {0}) × Server N).
          Ended p (after x.0 (λ (u : Unit {0}). stop_if io (is_game_running x.1) x.1) x.1))
        (sym done)
        (stop_if-Ended (is_game_running (settled l s)) p (settled l s) refl
          (subst IsSound (sym kept) (without_routines-IsSound l sound'))
          (ap (entrant p) kept ∙ without_routines-entrant p l ∙ gone))
