-- ===== src/Core/Service.antt =====
-- rpt-core/src/Service.cpp and ServiceEvent.cpp with their headers: the queue of events and the set
-- of watched timers that each service has. A set of identifiers is a list; a watched timer is named by
-- its token, which stands for its address.
pub mod Order
use rp_t_minigames_server.Prelude.{
  ℕ, Bool, true, false, not, List, [], ◌∷◌, ◌++◌, Option, none, some, Text, text, ◌==◌,
  if◌then◌else◌, is_empty,
}
use rp_t_minigames_server.Outcome.{
  Result, ok, err, empty_events_queue, bad_watched_token, no_uids_list, Action, gets, modify, guard,
  ◌>>=◌, ◌>>◌,
}
use rp_t_minigames_server.Core.Timer.{Timer, ServiceContext, new_event_pushed, is_waiting_countdown}

pub record ServiceEvent : Type 0 where
  pub command : Text
  pub event_targets : Option (List ℕ)

abbrev pub prefix_with : Text → ServiceEvent → ServiceEvent
prefix_with higher_protocol_prefix e = record e { command = higher_protocol_prefix ++ e.command }

abbrev pub target_everyone : ServiceEvent → Bool
target_everyone e = elim e.event_targets [ none ↦ true | some uids ↦ false ]

abbrev pub targets : ServiceEvent → Result (List ℕ)
targets e = elim e.event_targets [ none ↦ err no_uids_list | some uids ↦ ok uids ]

pub record Service : Type 0 where
  pub events_queue : List (ℕ × ServiceEvent)
  pub watched_timers : List ℕ

unfoldable pub is_watched : ℕ → List ℕ → Bool
is_watched t [] = false
is_watched t (x ∷ xs) = if x == t then true else is_watched t xs

unfoldable pub forget : ℕ → List ℕ → List ℕ
forget t [] = []
forget t (x ∷ xs) = if x == t then xs else x ∷ forget t xs

unfoldable pub watch_timer : ℕ → Action Service (Unit {0})
unfolding is_watched
watch_timer timer_to_watch = do
  watched ← gets (λ s. s.watched_timers)
  guard (not (is_watched timer_to_watch watched))
      (bad_watched_token timer_to_watch (text "Already watched"))
  modify (λ s. record s { watched_timers = s.watched_timers ++ timer_to_watch ∷ [] })

unfoldable pub forget_timer : ℕ → Action Service (Unit {0})
unfolding is_watched forget
forget_timer watched_timer = do
  watched ← gets (λ s. s.watched_timers)
  guard (is_watched watched_timer watched) (bad_watched_token watched_timer (text "Not watched"))
  modify (λ s. record s { watched_timers = forget watched_timer s.watched_timers })

-- With no target in the list the event is for every actor.
unfoldable pub emit_event : Text → List ℕ → ServiceContext × Service → ServiceContext × Service
unfolding new_event_pushed
emit_event event_command event_targets (context, s) =
    let (event_id, context') = new_event_pushed context in
    let event : ServiceEvent = record {
      command = event_command;
      event_targets = if is_empty event_targets then none else some event_targets;
    } in
    (context', record s { events_queue = s.events_queue ++ (event_id, event) ∷ [] })

unfoldable pub check_event : Service → Option ℕ
check_event s = elim s.events_queue [ [] ↦ none | e ∷ queue ↦ some e.0 ]

abbrev pub poll_from : Text → List (ℕ × ServiceEvent) → Action Service ServiceEvent
poll_from name [] s = (err (empty_events_queue name), s)
poll_from name (e ∷ queue) s = (ok e.1, record s { events_queue = queue })

unfoldable pub poll_event : Text → Action Service ServiceEvent
poll_event name s = poll_from name s.events_queue s

-- The watched timers that wait for their countdown, in the order of the set.
unfoldable pub get_waiting_timers : {C : Type 0} → (ℕ → Option (Timer C)) → List ℕ → List ℕ
get_waiting_timers timers [] = []
get_waiting_timers timers (t ∷ watched) =
    let rest = get_waiting_timers timers watched in
    elim (timers t) [
      | none ↦ rest
      | some timer ↦ if is_waiting_countdown timer then t ∷ rest else rest
    ]
