-- ===== src/Services/Lobby/Requests.antt =====
-- What the lobby's operations do to the seats, the number of ready players and the countdown.
use rp_t_minigames_server.Prelude.{
  ℕ, ◌≢◌, ==→≢, ◌+◌, ◌≡◌, refl, sym, ◌∙◌, ap, subst, ◌⊎◌, inl, inr, Bool, true, false, not,
  Bool-cases, ==→≡, ◌==◌, if◌then◌else◌, [], ◌∷◌, Option, none, some, Text, arith,
}
use rp_t_minigames_server.Outcome.{◌>>◌, pure, ok, err, Error, after}
use rp_t_minigames_server.Outcome.Ends.{Ends, returns, Ends-lift}
use rp_t_minigames_server.Utils.HandlingResult.{handled}
use rp_t_minigames_server.Core.Timer.{Timer, disabled, ready}
use rp_t_minigames_server.Board.Game.{Player, incremented, decremented}
use rp_t_minigames_server.Services.Lobby
use rp_t_minigames_server.Services.Lobby.{
  LobbyService, Entrant, Routine, start_minigame, entrant, set_entrant, assign_actor, remove_actor,
  assign_by, remove_entrant, count_ready, begin_lobby_countdown, cancel_countdown, player_for,
  toggle_ready, settle_countdown, handle_request_command, parse_command, new_entrant, held,
  rethrown,
}
use rp_t_minigames_server.Services.Lobby.Seats.{
  IsSound, Quiet, ready_count, readiness, cancel_countdown-IsSound, begin_countdown-IsSound,
  toggled-counted, ready_count-le,
}

Counted : LobbyService → Type 0
Counted l = l.ready_players ≡ ready_count l.white_player_actor + ready_count l.black_player_actor

count_ready-steps :
    (b : Bool) (actor : ℕ) (l : LobbyService)
    → (l' : LobbyService) × (count_ready b actor l ≡ (ok tt, l'))
      × (l'.ready_players
          ≡ (if b then incremented l.ready_players else decremented l.ready_players))
      × (l'.white_player_actor ≡ l.white_player_actor)
      × (l'.black_player_actor ≡ l.black_player_actor)
      × (l'.starting_countdown ≡ l.starting_countdown)
count_ready-steps true actor l = (_, refl, refl, refl, refl, refl)
count_ready-steps false actor l = (_, refl, refl, refl, refl, refl)

-- How the countdown stands: requested, with the routine that starts the session, when both players are
-- ready, else disabled.
abbrev pub Settled : LobbyService → Type 0
Settled l =
    ((l.ready_players ≡ 2)
      × (l.starting_countdown.current_state ≡ ready)
      × (l.starting_countdown.trigger_callbacks ≡ start_minigame ∷ []))
    ⊎ ((l.ready_players ≢ 2) × (l.starting_countdown.current_state ≡ disabled))

settle_countdown-IsSound :
    (l : LobbyService)
    → Counted l
    → Quiet l.starting_countdown.clear_callbacks
    → (l' : LobbyService) × (settle_countdown l ≡ (ok tt, l'))
      × IsSound l'
      × Settled l'
      × (l'.white_player_actor ≡ l.white_player_actor)
      × (l'.black_player_actor ≡ l.black_player_actor)
unfolding settle_countdown Counted
settle_countdown-IsSound l c q = elim (Bool-cases (l.ready_players == 2)) [
  | inl two ↦
      let (l', e, s, w, b, n, r, t) = begin_countdown-IsSound l c q (==→≡ _ _ two) in
      (l', rw two e, s, inl (n ∙ ==→≡ _ _ two, r, t), w, b)
  | inr less ↦
      let (l', e, s, w, b, n, d) = cancel_countdown-IsSound l c q in
      (l', rw less e, s, inr (λ h. ==→≢ _ _ less (sym n ∙ h), d), w, b)
]

add_comm : (a b : ℕ) → a + b ≡ b + a
add_comm a b = omega arith

toggle_ready-IsSound :
    (p : Player) (e : Entrant) (actor : ℕ) (l : LobbyService)
    → entrant p l ≡ some e
    → IsSound l
    → (l' : LobbyService) × (toggle_ready p e actor l ≡ (ok handled, l'))
      × IsSound l'
      × Settled l'
      × (entrant p l' ≡ some (record e { is_ready = not e.is_ready }))
unfolding toggle_ready Counted
toggle_ready-IsSound Player.white e actor l seated s =
    let m = set_entrant Player.white (some (record e { is_ready = not e.is_ready })) l in
    let (l1, e1, n1, w1, b1, t1) = count_ready-steps (not e.is_ready) actor m in
    let was : l.ready_players ≡ readiness e.is_ready + ready_count l.black_player_actor =
      s.counted ∙ ap (λ o. ready_count o + ready_count l.black_player_actor) seated in
    let counted =
      n1
      ∙ toggled-counted e.is_ready l.ready_players (ready_count l.black_player_actor) was
          (ready_count-le l.black_player_actor)
      ∙ sym (
          ap (λ o. ready_count o + ready_count l1.black_player_actor) w1
          ∙ ap (λ o. readiness (not e.is_ready) + ready_count o) b1) in
    let (l2, e2, s2, d2, w2, b2) =
      settle_countdown-IsSound l1 counted
        (subst (λ (t : Timer Routine). Quiet t.clear_callbacks) (sym t1) s.quiet) in
    (
      l2,
      ap (λ x. after x.0 (λ _. (settle_countdown >> pure handled) x.1) x.1) e1
          ∙ ap (λ x. after x.0 (λ _. (ok handled, x.1)) x.1) e2,
      s2,
      d2,
      w2 ∙ w1,
    )
toggle_ready-IsSound Player.black e actor l seated s =
    let m = set_entrant Player.black (some (record e { is_ready = not e.is_ready })) l in
    let (l1, e1, n1, w1, b1, t1) = count_ready-steps (not e.is_ready) actor m in
    let was : l.ready_players ≡ readiness e.is_ready + ready_count l.white_player_actor =
      s.counted
      ∙ ap (λ o. ready_count l.white_player_actor + ready_count o) seated
      ∙ add_comm (ready_count l.white_player_actor) (readiness e.is_ready) in
    let counted =
      n1
      ∙ toggled-counted e.is_ready l.ready_players (ready_count l.white_player_actor) was
          (ready_count-le l.white_player_actor)
      ∙ add_comm (readiness (not e.is_ready)) (ready_count l.white_player_actor)
      ∙ sym (
          ap (λ o. ready_count o + ready_count l1.black_player_actor) w1
          ∙ ap (λ o. ready_count l.white_player_actor + ready_count o) b1) in
    let (l2, e2, s2, d2, w2, b2) =
      settle_countdown-IsSound l1 counted
        (subst (λ (t : Timer Routine). Quiet t.clear_callbacks) (sym t1) s.quiet) in
    (
      l2,
      ap (λ x. after x.0 (λ _. (settle_countdown >> pure handled) x.1) x.1) e1
          ∙ ap (λ x. after x.0 (λ _. (ok handled, x.1)) x.1) e2,
      s2,
      d2,
      b2 ∙ b1,
    )

pub is_actor-some :
    (actor : ℕ) (o : Option Entrant)
    → Lobby.is_actor actor o ≡ true
    → (e : Entrant) × (o ≡ some e) × (e.actor_uid ≡ actor)
is_actor-some actor none h = cc
is_actor-some actor (some e) h = (e, refl, ==→≡ _ _ h)

same {ℓ} : {A : Type ℓ} {a b : A} → ok a ≡ ok b → a ≡ b
same h = cc

differ {ℓ} : {A : Type ℓ} {e : Error} {a : A} → err e ≢ ok a
differ h = cc

-- The reference to an entrant that `player_for` returns is never one to an empty optional.
pub player_for-seated :
    (actor : ℕ) (l : LobbyService) (p : Player)
    → player_for actor l ≡ ok p
    → (e : Entrant) × (entrant p l ≡ some e) × (e.actor_uid ≡ actor)
unfolding player_for
player_for-seated actor l p h = elim (Bool-cases (Lobby.is_actor actor l.white_player_actor)) [
  | inl w ↦
      subst (λ q. (e : Entrant) × (entrant q l ≡ some e) × (e.actor_uid ≡ actor))
        (same (the_white w ∙ h)) (is_actor-some actor l.white_player_actor w)
  | inr w ↦ elim (Bool-cases (Lobby.is_actor actor l.black_player_actor)) [
    | inl b ↦
        subst (λ q. (e : Entrant) × (entrant q l ≡ some e) × (e.actor_uid ≡ actor))
          (same (the_black w b ∙ h)) (is_actor-some actor l.black_player_actor b)
    | inr b ↦ absurd (differ (nobody w b ∙ h))
  ]
]
  where
    the_white :
        Lobby.is_actor actor l.white_player_actor ≡ true → ok Player.white ≡ player_for actor l
    the_white w = rw w refl

    the_black :
        Lobby.is_actor actor l.white_player_actor ≡ false
        → Lobby.is_actor actor l.black_player_actor ≡ true
        → ok Player.black ≡ player_for actor l
    the_black w b = rw (w, b) refl

    nobody :
        Lobby.is_actor actor l.white_player_actor ≡ false
        → Lobby.is_actor actor l.black_player_actor ≡ false
        → err (Lobby.not_assigned actor) ≡ player_for actor l
    nobody w b = rw (w, b) refl

-- What a READY request does when it returns.
abbrev pub Toggled : ℕ → LobbyService → LobbyService → Type 0
Toggled actor l l' =
    (p : Player) × (e : Entrant) × (entrant p l ≡ some e)
    × (e.actor_uid ≡ actor)
    × (entrant p l' ≡ some (record e { is_ready = not e.is_ready }))
    × IsSound l'
    × Settled l'

-- In a sound lobby a request throws and changes nothing, or it turns over the readiness of the
-- requesting actor, who has a seat. The lobby is then sound again, and its countdown is requested, to
-- start the session, exactly when both players are ready, and disabled otherwise.
pub handle_request_command-Toggled :
    (actor : ℕ) (sr_command_data : Text) (l : LobbyService)
    → IsSound l
    → Ends l
        (λ r l'. (r ≡ handled) × Toggled actor l l')
        (handle_request_command actor sr_command_data l)
unfolding handle_request_command
handle_request_command-Toggled actor request l s = Ends-lift (parse_command request) _ l λ _ _.
    Ends-lift (player_for actor l) _ l λ p known.
      let (e, seated, own) = player_for-seated actor l p known in
      let (l', ended, s', d, toggled) = toggle_ready-IsSound p e actor l seated s in
      returns handled l' (rw (seated, ended) refl) (refl, (p, e, seated, own, toggled, s', d))
