-- ===== src/Core/Service/Order.antt =====
-- The order of a service's events.
use rp_t_minigames_server.Prelude.{
  ℕ, ◌+◌, ◌%◌, ◌^◌, ◌<◌, ◌≤◌, ◌≡◌, refl, List, [], ◌∷◌, ◌++◌, none, some, Text, arith, is_empty,
  if◌then◌else◌,
}
use rp_t_minigames_server.Outcome.{Result, ok, err, empty_events_queue}
use rp_t_minigames_server.Core.Timer.{ServiceContext, new_event_pushed}
use rp_t_minigames_server.Core.Service.{
  Service, ServiceEvent, emit_event, check_event, poll_event, poll_from,
}

-- The identifiers of a queue rise, and all are from `low` on and below `high`.
abbrev pub Rising : ℕ → List (ℕ × ServiceEvent) → ℕ → Type 0
Rising low [] high = low ≤ high
Rising low (e ∷ queue) high = (low ≤ e.0) × Rising (e.0 + 1) queue high

Rising-le :
    (low : ℕ) (queue : List (ℕ × ServiceEvent)) (high : ℕ) → Rising low queue high → low ≤ high
Rising-le low [] high r = r
Rising-le low (e ∷ queue) high r = omega (arith, Rising-le (e.0 + 1) queue high r.1, r.0)

Rising-weaken :
    (low : ℕ) (queue : List (ℕ × ServiceEvent)) (high higher : ℕ)
    → high ≤ higher
    → Rising low queue high
    → Rising low queue higher
Rising-weaken low [] high higher h r = omega (arith, h, r)
Rising-weaken low (e ∷ queue) high higher h r =
    (r.0, Rising-weaken (e.0 + 1) queue high higher h r.1)

Rising-push :
    (low : ℕ) (queue : List (ℕ × ServiceEvent)) (high : ℕ) (e : ServiceEvent)
    → Rising low queue high
    → Rising low (queue ++ (high, e) ∷ []) (high + 1)
Rising-push low [] high e r = (r, omega arith)
Rising-push low (x ∷ queue) high e r = (r.0, Rising-push (x.0 + 1) queue high e r.1)

Rising-lower :
    (low lower : ℕ) (queue : List (ℕ × ServiceEvent)) (high : ℕ)
    → lower ≤ low
    → Rising low queue high
    → Rising lower queue high
Rising-lower low lower [] high h r = omega (arith, h, r)
Rising-lower low lower (e ∷ queue) high h r = (omega (arith, h, r.0), r.1)

unfoldable pub InOrder : ServiceContext × Service → Type 0
InOrder (c, s) = Rising 0 s.events_queue c.events_count

-- While the counter of events is below 2^64 - 1: emitting an event keeps the identifiers of the queue
-- rising and below the counter, and adds to the end of the queue the command given under the counter's
-- value, for everyone if no target is given and else for the targets given.
pub emit_event-InOrder :
    (command : Text) (uids : List ℕ) (c : ServiceContext) (s : Service)
    → c.events_count + 1 < 2 ^ 64
    → InOrder (c, s)
    → InOrder (emit_event command uids (c, s))
      × ((emit_event command uids (c, s)).1.events_queue
          ≡ s.events_queue
            ++ (
              c.events_count,
              record {
                command = command;
                event_targets = if is_empty uids then none else some uids;
              },
            )
              ∷ [])
unfolding emit_event new_event_pushed InOrder
emit_event-InOrder command uids c s small r =
    let no_wrap : (c.events_count + 1) % 2 ^ 64 ≡ c.events_count + 1 = omega (arith, small) in
    (rw no_wrap (Rising-push 0 s.events_queue c.events_count _ r), refl)

-- What a poll does, by the queue that the service has.
abbrev pub Polled :
    Text
    → ServiceContext
    → Service
    → List (ℕ × ServiceEvent)
    → Result ServiceEvent × Service
    → Type 0
Polled name c s [] x = x ≡ (err (empty_events_queue name), s)
Polled name c s (e ∷ queue) x =
    (x.0 ≡ ok e.1)
    × (check_event s ≡ some e.0)
    × (x.1.events_queue ≡ queue)
    × (x.1.watched_timers ≡ s.watched_timers)
    × Rising (e.0 + 1) x.1.events_queue c.events_count

polled :
    (name : Text) (c : ServiceContext) (watched : List ℕ) (queue : List (ℕ × ServiceEvent))
    → Rising 0 queue c.events_count
    → let s : Service = record { events_queue = queue; watched_timers = watched } in
      Polled name c s queue (poll_from name queue s)
unfolding check_event
polled name c watched [] r = refl
polled name c watched (e ∷ queue) r = (refl, refl, refl, refl, r.1)

-- On a service whose queue is in order and not empty a poll returns the event that `check_event`
-- announces, the first of the queue, and takes it alone off the queue; the identifiers that are left
-- rise and are higher than its own. On an empty queue it throws and changes nothing.
pub poll_event-InOrder :
    (name : Text) (c : ServiceContext) (s : Service)
    → InOrder (c, s)
    → Polled name c s s.events_queue (poll_event name s)
unfolding poll_event InOrder
poll_event-InOrder name c s r = polled name c s.watched_timers s.events_queue r
