-- ===== src/Core/Executor/Events.antt =====
-- The loop of the executor that outputs the events of the services.
use rp_t_minigames_server.Prelude.{
  ℕ, zero, suc, ◌+◌, ◌≡◌, ◌≢◌, refl, sym, ◌∙◌, subst, inl, inr, List, ◌++◌, some, arith, text,
  Option,
}
use rp_t_minigames_server.Outcome.{Result, ok, err, unfinished, after, Action, ◌>>=◌}
use rp_t_minigames_server.Core.Service.{ServiceEvent, prefix_with}
use rp_t_minigames_server.Core.Protocol.{RunningService, poll_service_event, poll_emitter}
use rp_t_minigames_server.Core.Protocol.Emitters.{IsAmong, NoEvent, poll_service_event-PollsLowest}
use rp_t_minigames_server.Core.Executor.{
  InputOutput, PendingTimers, Handlers, ExecutedService, total_left, output_next, output_events,
  output_all,
}

-- What the loop relies on: the poll of a service that has an event takes one event off the queues, and
-- the interface's output puts none there, and ends.
pub record Queues {W : Type 0} (io : InputOutput W) (left : W → ℕ)
    (ser_protocol : List (RunningService W)) : Type 0 where
  pub polls :
      (w : W) (s : RunningService W) (id : ℕ)
      → IsAmong w s ser_protocol
      → s.next_event_id w ≡ some id
      → (event : ServiceEvent) × (w' : W) × (s.poll w ≡ (ok event, w')) × (suc (left w') ≡ left w)
  pub outputs : (event : ServiceEvent) (w : W) → left (io.output_event event w).1 ≡ left w
  pub output_ends : (event : ServiceEvent) (w : W) → (io.output_event event w).0 ≢ err unfinished

-- The loop ends; when it returns, no service has an event.
abbrev pub Drains : {W : Type 0} → List (RunningService W) → Result (Unit {0}) × W → Type 0
Drains ser_protocol x = (x.0 ≢ err unfinished) × (x.0 ≡ ok tt → NoEvent x.1 ser_protocol)

polled_once :
    {W : Type 0} (s : RunningService W) (id : ℕ) (event : ServiceEvent) (w w' : W)
    → s.poll w ≡ (ok event, w')
    → poll_emitter (some (s, id)) w
      ≡ (ok (some (prefix_with (text "EVENT" ++ text " " ++ s.name ++ text " ") event)), w')
polled_once s id event w w' e = rw e refl

module _ {W : Type 0} (io : InputOutput W) (timers : PendingTimers W) (handlers : Handlers W) where
  after-Drains :
      (ser_protocol : List (RunningService W)) (x : Result (Unit {0}) × W) (f : Action W (Unit {0}))
      → x.0 ≢ err unfinished
      → Drains ser_protocol (f x.1)
      → Drains ser_protocol (after x.0 (λ a. f x.1) x.1)
  after-Drains ser_protocol (ok a, w) f n d = d
  after-Drains ser_protocol (err e, w) f n d = (n, λ h. cc)

  -- A round of the loop, from what it polls.
  round-Drains :
      (rest : Action W (Unit {0})) (ser_protocol : List (RunningService W)) (w : W)
      {x : Result (Option ServiceEvent) × W}
      → poll_service_event ser_protocol w ≡ x
      → Drains ser_protocol (after x.0 (λ event. output_next io timers handlers rest event x.1) x.1)
      → Drains ser_protocol
          ((poll_service_event ser_protocol >>= output_next io timers handlers rest) w)
  round-Drains rest ser_protocol w e d =
      subst
        (λ y.
          Drains ser_protocol
            (after y.0 (λ event. output_next io timers handlers rest event y.1) y.1))
        (sym e) d

  output_events-Drains :
      (fuel : ℕ) (ser_protocol : List (RunningService W)) (left : W → ℕ) (w : W)
      → Queues io left ser_protocol
      → suc (left w) ≡ fuel
      → Drains ser_protocol (output_events io timers handlers fuel ser_protocol w)
  unfolding output_events
  output_events-Drains zero ser_protocol left w q enough = absurd (omega (arith, enough))
  output_events-Drains (suc fuel) ser_protocol left w q enough =
      elim (poll_service_event-PollsLowest w ser_protocol) [
        | inl (silent, polled) ↦
            round-Drains (output_events io timers handlers fuel ser_protocol) ser_protocol w polled
              ((λ h. cc), λ h. silent)
        | inr (s, id, among, next, lowest, polled) ↦
            let (event, w', e, fewer) = q.polls w s id among next in
            let prefixed = prefix_with (text "EVENT" ++ text " " ++ s.name ++ text " ") event in
            let out = io.output_event prefixed w' in
            let whole : poll_service_event ser_protocol w ≡ (ok (some prefixed), w') =
              polled ∙ polled_once s id event w w' e in
            let same : left out.1 ≡ left w' = q.outputs prefixed w' in
            round-Drains (output_events io timers handlers fuel ser_protocol) ser_protocol w whole (
              after-Drains ser_protocol out (output_events io timers handlers fuel ser_protocol)
                (q.output_ends prefixed w')
                (output_events-Drains fuel ser_protocol left out.1 q
                  (omega (arith, enough, fewer, same))))
      ]

  pub output_all-Drains :
      (ser_protocol : List (RunningService W)) (services : List (ExecutedService W)) (w : W)
      → Queues io (total_left services) ser_protocol
      → Drains ser_protocol (output_all io timers handlers ser_protocol services w)
  unfolding output_all
  output_all-Drains ser_protocol services w q =
      output_events-Drains (total_left services w + 1) ser_protocol (total_left services) w q
        (omega arith)
