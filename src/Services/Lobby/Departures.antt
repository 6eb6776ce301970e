-- ===== src/Services/Lobby/Departures.antt =====
-- Who gives up a seat in the lobby.
use rp_t_minigames_server.Prelude.{
  ℕ, ◌+◌, ◌≤◌, ◌≡◌, refl, sym, ◌∙◌, ap, ◌⊎◌, inl, inr, Bool, true, false, Bool-cases, none, some,
  arith, if◌then◌else◌,
}
use rp_t_minigames_server.Outcome.{Result, ok, err, after}
use rp_t_minigames_server.Outcome.Ends.{Ends, returns, throws}
use rp_t_minigames_server.Core.Timer.{disabled}
use rp_t_minigames_server.Board.Game.{Player, decremented}
use rp_t_minigames_server.Services.Lobby
use rp_t_minigames_server.Services.Lobby.{
  LobbyService, Entrant, entrant, set_entrant, player_for, leave_ready, remove_entrant,
  remove_actor, rethrown, cancel_countdown,
}
use rp_t_minigames_server.Services.Lobby.Seats.{
  IsSound, Quiet, ready_count, readiness, is_active, cancel_countdown-IsSound, ready_count-le,
}
use rp_t_minigames_server.Services.Lobby.Requests.{is_actor-some, player_for-seated}

removed-counted :
    (b : Bool) (n other : ℕ)
    → n ≡ readiness b + other
    → other ≤ 1
    → (if b then decremented n else n) ≡ other
removed-counted true n other e l = omega (arith, e, l)
removed-counted false n other e l = omega (arith, e, l)

-- The countdown of a lobby that a ready player leaves is disabled.
abbrev pub Stopped : Bool → LobbyService → LobbyService → Type 0
Stopped true l l' = l'.starting_countdown.current_state ≡ disabled
Stopped false l l' = l'.starting_countdown ≡ l.starting_countdown

leave_ready-steps :
    (b : Bool) (l : LobbyService)
    → IsSound l
    → (l' : LobbyService) × (leave_ready b l ≡ (ok tt, l'))
      × (l'.white_player_actor ≡ l.white_player_actor)
      × (l'.black_player_actor ≡ l.black_player_actor)
      × (l'.ready_players ≡ (if b then decremented l.ready_players else l.ready_players))
      × Stopped b l l'
      × Quiet l'.starting_countdown.clear_callbacks
      × ((is_active l'.starting_countdown.current_state ≡ false) ⊎ (l'.ready_players ≡ 2))
leave_ready-steps true l s =
    let (l1, e, s1, w, b, n, d) = cancel_countdown-IsSound l s.counted s.quiet in
    (
      record l1 { ready_players = decremented l1.ready_players },
      ap
          (λ x.
            after x.0
              (λ _. (ok tt, record (x.1) { ready_players = decremented (x.1).ready_players })) x.1)
          e,
      w,
      b,
      ap decremented n,
      d,
      s1.quiet,
      inl (ap is_active d),
    )
leave_ready-steps false l s = (l, refl, refl, refl, refl, refl, s.quiet, s.armed)

-- What a removal does when it returns.
abbrev pub Removed : ℕ → LobbyService → LobbyService → Type 0
Removed uid l l' =
    (p : Player) × (e : Entrant) × (entrant p l ≡ some e)
    × (e.actor_uid ≡ uid)
    × (entrant p l' ≡ none)
    × Stopped e.is_ready l l'
    × IsSound l'

plus_zero : (n : ℕ) → n ≡ 0 + n
plus_zero n = omega arith

zero_plus : (n : ℕ) → n ≡ n + 0
zero_plus n = omega arith

swap : (a b : ℕ) → a + b ≡ b + a
swap a b = omega arith

kept :
    (p : Player) (b : Bool) (l l1 : LobbyService)
    → Stopped b l l1
    → Stopped b l (set_entrant p none l1)
kept Player.white true l l1 d = d
kept Player.white false l l1 d = d
kept Player.black true l l1 d = d
kept Player.black false l l1 d = d

-- What follows once the readiness is settled.
abbrev vacate : Player → Result (Unit {0}) × LobbyService → Result (Unit {0}) × LobbyService
vacate p x = after x.0 (λ _. (ok tt, set_entrant p none x.1)) x.1

remove_entrant-Removed :
    (p : Player) (e : Entrant) (l : LobbyService)
    → entrant p l ≡ some e
    → IsSound l
    → (l' : LobbyService) × (remove_entrant p l ≡ (ok tt, l'))
      × (entrant p l' ≡ none)
      × Stopped e.is_ready l l'
      × IsSound l'
unfolding remove_entrant
remove_entrant-Removed Player.white e l seated s =
    let (l1, e1, w1, b1, n1, d1, q1, a1) = leave_ready-steps e.is_ready l s in
    let was = s.counted ∙ ap (λ o. ready_count o + ready_count l.black_player_actor) seated in
    (
      set_entrant Player.white none l1,
      ap (λ o. after (Lobby.held o) (λ a. vacate Player.white (leave_ready a.is_ready l)) l) seated
          ∙ ap (vacate Player.white) e1,
      refl,
      kept Player.white e.is_ready l l1 d1,
      record {
        counted =
            n1
            ∙ removed-counted e.is_ready l.ready_players (ready_count l.black_player_actor) was
                (ready_count-le l.black_player_actor)
            ∙ sym (ap ready_count b1)
            ∙ plus_zero (ready_count l1.black_player_actor);
        armed = a1;
        quiet = q1;
      },
    )
remove_entrant-Removed Player.black e l seated s =
    let (l1, e1, w1, b1, n1, d1, q1, a1) = leave_ready-steps e.is_ready l s in
    let was =
      s.counted
      ∙ ap (λ o. ready_count l.white_player_actor + ready_count o) seated
      ∙ swap (ready_count l.white_player_actor) (readiness e.is_ready) in
    (
      set_entrant Player.black none l1,
      ap (λ o. after (Lobby.held o) (λ a. vacate Player.black (leave_ready a.is_ready l)) l) seated
          ∙ ap (vacate Player.black) e1,
      refl,
      kept Player.black e.is_ready l l1 d1,
      record {
        counted =
            n1
            ∙ removed-counted e.is_ready l.ready_players (ready_count l.white_player_actor) was
                (ready_count-le l.white_player_actor)
            ∙ sym (ap ready_count w1)
            ∙ zero_plus (ready_count l1.white_player_actor);
        armed = a1;
        quiet = q1;
      },
    )

-- `remove_actor` by what the search for the player returns.
abbrev removal : Result Player → LobbyService → Result (Unit {0}) × LobbyService
removal r l = rethrown (after r (λ p. remove_entrant p l) l)

player_for-removal :
    (uid : ℕ) (p : Player) (l : LobbyService)
    → IsSound l
    → player_for uid l ≡ ok p
    → (e : Entrant) × (entrant p l ≡ some e) × (e.actor_uid ≡ uid)
    → Ends l (λ _ l'. Removed uid l l') (remove_actor uid l)
unfolding remove_actor
player_for-removal uid p l s known (e, seated, own) =
    let (l', ended, gone, stopped, s') = remove_entrant-Removed p e l seated s in
    returns tt l' (ap (λ r. removal r l) known ∙ ap rethrown ended)
      (p, e, seated, own, gone, stopped, s')

player_for-nobody :
    (uid : ℕ) (l : LobbyService)
    → Lobby.is_actor uid l.white_player_actor ≡ false
    → Lobby.is_actor uid l.black_player_actor ≡ false
    → player_for uid l ≡ err (Lobby.not_assigned uid)
unfolding player_for
player_for-nobody uid l w b = rw (w, b) refl

-- In a sound lobby a removal throws and changes nothing, or it frees the seat of the actor given and
-- leaves the lobby sound. When that actor was ready the countdown is then disabled, else it is as before.
pub remove_actor-Removed :
    (uid : ℕ) (l : LobbyService)
    → IsSound l
    → Ends l (λ _ l'. Removed uid l l') (remove_actor uid l)
unfolding remove_actor player_for
remove_actor-Removed uid l s = elim (Bool-cases (Lobby.is_actor uid l.white_player_actor)) [
  | inl w ↦
      player_for-removal uid Player.white l s (rw w refl) (is_actor-some uid l.white_player_actor w)
  | inr w ↦ elim (Bool-cases (Lobby.is_actor uid l.black_player_actor)) [
    | inl b ↦
        player_for-removal uid Player.black l s (rw (w, b) refl)
          (is_actor-some uid l.black_player_actor b)
    | inr b ↦ throws _ (ap (λ r. removal r l) (player_for-nobody uid l w b))
  ]
]

-- The removal of an actor who has a seat.
pub remove_actor-seated :
    (uid : ℕ) (p : Player) (l : LobbyService)
    → IsSound l
    → player_for uid l ≡ ok p
    → (l' : LobbyService) × (remove_actor uid l ≡ (ok tt, l')) × (entrant p l' ≡ none) × IsSound l'
unfolding remove_actor
remove_actor-seated uid p l s known =
    let (e, seated, own) = player_for-seated uid l p known in
    let (l', ended, gone, stopped, s') = remove_entrant-Removed p e l seated s in
    (l', ap (λ r. removal r l) known ∙ ap rethrown ended, gone, s')
