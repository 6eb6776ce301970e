-- ===== src/Services/Lobby/Assignments.antt =====
-- Who gets a seat in the lobby.
use rp_t_minigames_server.Prelude.{
  ℕ, ◌+◌, ◌≡◌, refl, sym, ◌∙◌, ap, subst, ◌⊎◌, inl, inr, false, Bool-cases, [], ◌∷◌, ◌++◌, Option,
  none, some, text,
}
use rp_t_minigames_server.Outcome.{Result, ok, err, bad_players_state, after}
use rp_t_minigames_server.Numbers.{to_string}
use rp_t_minigames_server.Core.Timer.{Timer}
use rp_t_minigames_server.Board.Game.{Player}
use rp_t_minigames_server.Services.Lobby
use rp_t_minigames_server.Services.Lobby.{
  LobbyService, Entrant, Routine, start_minigame, entrant, set_entrant, assign_actor, remove_actor,
  assign_by, remove_entrant, count_ready, begin_lobby_countdown, cancel_countdown, player_for,
  toggle_ready, settle_countdown, handle_request_command, parse_command, new_entrant, held,
  rethrown,
}
use rp_t_minigames_server.Services.Lobby.Seats.{IsSound, Quiet, ready_count, is_active}

notify_ready-steps :
    (o : Option Entrant) (uid : ℕ) (l : LobbyService)
    → (l' : LobbyService) × (Lobby.notify_ready o uid l ≡ (ok tt, l'))
      × (l'.white_player_actor ≡ l.white_player_actor)
      × (l'.black_player_actor ≡ l.black_player_actor)
      × (l'.ready_players ≡ l.ready_players)
      × (l'.starting_countdown ≡ l.starting_countdown)
notify_ready-steps none uid l = (l, refl, refl, refl, refl, refl)
notify_ready-steps (some e) uid l = elim (Bool-cases e.is_ready) [
  | inl y ↦ (
    (Lobby.emit (text "READY_PLAYER " ++ to_string e.actor_uid) (uid ∷ []) l).1,
    rw y refl,
    refl,
    refl,
    refl,
    refl,
  )
  | inr y ↦ (l, rw y refl, refl, refl, refl, refl)
]

-- What an assignment does, by the two seats.
abbrev pub Seated :
    ℕ → LobbyService → Option Entrant → Option Entrant → Result Player × LobbyService → Type 0
Seated uid l none black x =
    (x.0 ≡ ok Player.white)
    × (x.1.white_player_actor ≡ new_entrant uid)
    × (x.1.black_player_actor ≡ black)
    × IsSound x.1
Seated uid l (some white) none x =
    (x.0 ≡ ok Player.black)
    × (x.1.black_player_actor ≡ new_entrant uid)
    × (x.1.white_player_actor ≡ some white)
    × IsSound x.1
Seated uid l (some white) (some black) x =
    x ≡ (err (bad_players_state (text "No player available")), l)

same_lobby :
    (l l' : LobbyService)
    → l'.ready_players ≡ l.ready_players
    → l'.starting_countdown ≡ l.starting_countdown
    → ready_count l'.white_player_actor + ready_count l'.black_player_actor
      ≡ ready_count l.white_player_actor + ready_count l.black_player_actor
    → IsSound l
    → IsSound l'
same_lobby l l' n t c s = record {
  counted = n ∙ s.counted ∙ sym c;
  armed =
      subst (λ (m : ℕ). (is_active l'.starting_countdown.current_state ≡ false) ⊎ (m ≡ 2)) (sym n)
        (subst
          (λ (timer : Timer Routine).
            (is_active timer.current_state ≡ false) ⊎ (l.ready_players ≡ 2))
          (sym t) s.armed);
  quiet = subst (λ (timer : Timer Routine). Quiet timer.clear_callbacks) (sym t) s.quiet;
}

assign_by-Seated :
    (white black : Option Entrant) (uid : ℕ) (l : LobbyService)
    → l.white_player_actor ≡ white
    → l.black_player_actor ≡ black
    → IsSound l
    → Seated uid l white black (Lobby.assign_by white black uid l)
assign_by-Seated none black uid l w b s =
    let m = set_entrant Player.white (new_entrant uid) l in
    let (l', e, w', b', n, t) = notify_ready-steps black uid m in
    subst (Seated uid l none black) (sym (ap (λ x. after x.0 (λ _. (ok Player.white, x.1)) x.1) e))
      (
        refl,
        w',
        b' ∙ b,
        same_lobby l l' n t
            (ap (λ o. ready_count o + ready_count l'.black_player_actor) (w')
              ∙ ap (λ o. 0 + ready_count o) b'
              ∙ ap (λ o. ready_count o + ready_count l.black_player_actor) (sym w))
            s,
      )
assign_by-Seated (some white) none uid l w b s =
    let m = set_entrant Player.black (new_entrant uid) l in
    let (l', e, w', b', n, t) = notify_ready-steps (some white) uid m in
    subst (Seated uid l (some white) none)
      (sym (ap (λ x. after x.0 (λ _. (ok Player.black, x.1)) x.1) e))
      (
        refl,
        b',
        w' ∙ w,
        same_lobby l l' n t
            (ap (λ o. ready_count o + ready_count l'.black_player_actor) w'
              ∙ ap (λ o. ready_count l.white_player_actor + ready_count o) b'
              ∙ ap (λ o. ready_count l.white_player_actor + ready_count o) (sym b))
            s,
      )
assign_by-Seated (some white) (some black) uid l w b s = refl

-- In a sound lobby an assignment returns White and gives the white seat if it is free, else returns
-- Black and gives the black one if that is free, to an entrant of that actor who is not ready; the
-- other seat is as it was and the lobby is sound. With both seats taken it throws and changes nothing.
pub assign_actor-Seated :
    (uid : ℕ) (l : LobbyService)
    → IsSound l
    → Seated uid l l.white_player_actor l.black_player_actor (assign_actor uid l)
unfolding assign_actor
assign_actor-Seated uid l s =
    assign_by-Seated l.white_player_actor l.black_player_actor uid l refl refl s
