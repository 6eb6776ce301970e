-- ===== src/Services/Lobby/Seats.antt =====
-- The two seats of the lobby, the number of ready players, and the countdown.
use rp_t_minigames_server.Prelude.{
  ℕ, ◌+◌, ◌≤◌, ◌≡◌, refl, sym, ++_nil, ++_assoc, ◌∙◌, ap, ◌⊎◌, inl, inr, Bool, true, false, not,
  Bool-cases, if◌then◌else◌, List, [], ◌∷◌, ◌++◌, Option, none, some, text, arith,
}
use rp_t_minigames_server.Outcome.{Result, ok, after}
use rp_t_minigames_server.Numbers.{to_string}
use rp_t_minigames_server.Core.Timer
use rp_t_minigames_server.Core.Timer.{
  Timer, TimerState, disabled, ready, pending, triggered, run_all, request_countdown, check_state,
}
use rp_t_minigames_server.Board.Game.{incremented, decremented}
use rp_t_minigames_server.Services.Lobby
use rp_t_minigames_server.Services.Lobby.{
  LobbyService, Entrant, Routine, start_minigame, erase_pending, cancel_countdown_of, entrant,
  set_entrant, assign_actor, remove_actor, remove_entrant, count_ready, request_lobby_countdown,
  begin_lobby_countdown, cancel_countdown, clear_countdown, run_routine, player_for,
}

-- Is the countdown requested or running?
abbrev pub is_active : TimerState → Bool
is_active disabled = false
is_active ready = true
is_active pending = true
is_active triggered = false

abbrev pub readiness : Bool → ℕ
readiness true = 1
readiness false = 0

abbrev pub ready_count : Option Entrant → ℕ
ready_count none = 0
ready_count (some e) = readiness e.is_ready

-- No routine starts a session.
abbrev pub Quiet : List Routine → Type 0
Quiet [] = Unit {0}
Quiet (start_minigame ∷ routines) = ⊥
Quiet (erase_pending t ∷ routines) = Quiet routines
Quiet (cancel_countdown_of t ∷ routines) = Quiet routines

-- The counter is the number of seated players who are ready, the countdown is active only if both seats
-- are taken by ready players, and no session starts when the countdown is cleared.
pub record IsSound (l : LobbyService) : Type 0 where
  pub counted :
      l.ready_players ≡ ready_count l.white_player_actor + ready_count l.black_player_actor
  pub armed : (is_active l.starting_countdown.current_state ≡ false) ⊎ (l.ready_players ≡ 2)
  pub quiet : Quiet l.starting_countdown.clear_callbacks

abbrev cleared : LobbyService → LobbyService
cleared l = record l {
  starting_countdown = record (l.starting_countdown) {
    current_state = disabled;
    clear_callbacks = [];
    trigger_callbacks = [];
  };
  routines_run = l.routines_run ++ l.starting_countdown.clear_callbacks;
}

abbrev with_run : LobbyService → List Routine → Result (Unit {0}) × LobbyService
with_run l routines = (ok tt, record l { routines_run = routines })

run-Quiet :
    (routines : List Routine) (l : LobbyService)
    → Quiet routines
    → run_all run_routine routines l
      ≡ (ok tt, record l { routines_run = l.routines_run ++ routines })
unfolding run_all run_routine
run-Quiet [] l q = ap (with_run l) (sym (++_nil l.routines_run))
run-Quiet (start_minigame ∷ routines) l q = absurd q
run-Quiet (erase_pending t ∷ routines) l q =
    run-Quiet routines _ q
    ∙ ap (with_run l) (++_assoc l.routines_run (erase_pending t ∷ []) routines)
run-Quiet (cancel_countdown_of t ∷ routines) l q =
    run-Quiet routines _ q
    ∙ ap (with_run l) (++_assoc l.routines_run (cancel_countdown_of t ∷ []) routines)

clear_countdown-Quiet :
    (l : LobbyService)
    → Quiet l.starting_countdown.clear_callbacks
    → clear_countdown l ≡ (ok tt, cleared l)
unfolding clear_countdown Timer.clear
clear_countdown-Quiet l q = rw (run-Quiet l.starting_countdown.clear_callbacks l q) refl

-- The lobby without an active countdown.
cleared-IsSound :
    (l : LobbyService)
    → l.ready_players ≡ ready_count l.white_player_actor + ready_count l.black_player_actor
    → IsSound (cleared l)
cleared-IsSound l c = record { counted = c; armed = inl refl; quiet = tt }

pub cancel_countdown-IsSound :
    (l : LobbyService)
    → l.ready_players ≡ ready_count l.white_player_actor + ready_count l.black_player_actor
    → Quiet l.starting_countdown.clear_callbacks
    → (l' : LobbyService) × (cancel_countdown l ≡ (ok tt, l'))
      × IsSound l'
      × (l'.white_player_actor ≡ l.white_player_actor)
      × (l'.black_player_actor ≡ l.black_player_actor)
      × (l'.ready_players ≡ l.ready_players)
      × (l'.starting_countdown.current_state ≡ disabled)
unfolding cancel_countdown
cancel_countdown-IsSound l c q = elim (Bool-cases (Timer.is_pending l.starting_countdown)) [
  | inl p ↦
      let m = (Lobby.emit (text "END_COUNTDOWN") [] l).1 in
      (
        cleared m,
        rw (p, clear_countdown-Quiet m q) refl,
        cleared-IsSound m c,
        refl,
        refl,
        refl,
        refl,
      )
  | inr p ↦ (
    cleared l,
    rw (p, clear_countdown-Quiet l q) refl,
    cleared-IsSound l c,
    refl,
    refl,
    refl,
    refl,
  )
]

pub begin_countdown-IsSound :
    (l : LobbyService)
    → l.ready_players ≡ ready_count l.white_player_actor + ready_count l.black_player_actor
    → Quiet l.starting_countdown.clear_callbacks
    → l.ready_players ≡ 2
    → (l' : LobbyService) × (begin_lobby_countdown l ≡ (ok tt, l'))
      × IsSound l'
      × (l'.white_player_actor ≡ l.white_player_actor)
      × (l'.black_player_actor ≡ l.black_player_actor)
      × (l'.ready_players ≡ l.ready_players)
      × (l'.starting_countdown.current_state ≡ ready)
      × (l'.starting_countdown.trigger_callbacks ≡ start_minigame ∷ [])
unfolding begin_lobby_countdown request_lobby_countdown request_countdown check_state
begin_countdown-IsSound l c q two =
    let armed_timer = record ((cleared l).starting_countdown) {
      current_state = ready;
      trigger_callbacks = start_minigame ∷ [];
    } in
    let m = record (cleared l) { starting_countdown = armed_timer } in
    let announced = text "BEGIN_COUNTDOWN " ++ to_string l.starting_countdown.countdown_ms in
    (
      (Lobby.emit announced [] m).1,
      ap (λ x. after x.0 (λ a. request_lobby_countdown x.1) x.1) (clear_countdown-Quiet l q),
      record { counted = c; armed = inr two; quiet = tt },
      refl,
      refl,
      refl,
      refl,
      refl,
    )

-- A change of one entrant's readiness, and the countdown that follows from it.
pub toggled-counted :
    (was : Bool) (n other : ℕ)
    → n ≡ readiness was + other
    → other ≤ 1
    → (if not was then incremented n else decremented n) ≡ readiness (not was) + other
toggled-counted true n other e l = omega (arith, e, l)
toggled-counted false n other e l = omega (arith, e, l)

pub readiness-le : (b : Bool) → readiness b ≤ 1
readiness-le true = omega arith
readiness-le false = omega arith

pub ready_count-le : (o : Option Entrant) → ready_count o ≤ 1
ready_count-le none = omega arith
ready_count-le (some e) = readiness-le e.is_ready
