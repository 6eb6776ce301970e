-- ===== src/Server/Events.antt =====
-- The events that the three services have queued, and the loop of the executor that outputs them.
use rp_t_minigames_server.Prelude.{
  ℕ, suc, ◌≡◌, ◌≢◌, refl, sym, ◌∙◌, subst, ap, ◌⊎◌, inl, inr, List, [], ◌∷◌, none, some, map, arith,
  length, text, Text,
}
use rp_t_minigames_server.Outcome.{Result, Result-cases, Error, ok, err, unfinished}
use rp_t_minigames_server.Core.Service.{Service, ServiceEvent, check_event, poll_event, poll_from}
use rp_t_minigames_server.Core.Protocol.{RunningService}
use rp_t_minigames_server.Core.Protocol.Emitters.{IsAmong}
use rp_t_minigames_server.Core.Executor.{ExecutedService, Handlers, total_left, output_all}
use rp_t_minigames_server.Core.Executor.Events.{Queues, output_all-Drains}
use rp_t_minigames_server.Server.{
  Network, Server, input_output, pending_timers_of, services, chat_service, minigame_service,
  lobby_service,
}

-- The protocol that `run` makes of the services.
abbrev pub protocol_of : {N : Type 0} → Network N → List (RunningService (Server N))
protocol_of io = map (λ (s : ExecutedService (Server _)). s.running) (services io)

-- A service whose next event has an identifier has an event, and a poll takes it.
abbrev Shorter : Text → Service → Type 0
Shorter name v =
    (event : ServiceEvent) × (v' : Service) × (poll_event name v ≡ (ok event, v'))
    × (suc (length v'.events_queue) ≡ length v.events_queue)

poll_event-Shorter :
    (name : Text) (queue : List (ℕ × ServiceEvent)) (v : Service) (id : ℕ)
    → v.events_queue ≡ queue
    → check_event v ≡ some id
    → Shorter name v
unfolding check_event poll_event
poll_event-Shorter name [] v id q e = absurd (ground (arith, q, e))
poll_event-Shorter name (x ∷ queue) v id q e =
    (x.1, record v { events_queue = queue }, ap (λ l. poll_from name l v) q, sym (ap length q))

module _ {N : Type 0} (io : Network N) where
  -- A service that the protocol can poll, on a server.
  abbrev Pollable : Server N → RunningService (Server N) → Type 0
  Pollable s v =
      (event : ServiceEvent) × (s' : Server N) × (v.poll s ≡ (ok event, s'))
      × (suc (total_left (services io) s') ≡ total_left (services io) s)

  chat-Pollable :
      (s : Server N) (id : ℕ)
      → check_event s.chat.service ≡ some id
      → Pollable s (chat_service io).running
  unfolding services chat_service minigame_service lobby_service total_left
  chat-Pollable s id e =
      let (event, v', polled, shorter) =
        poll_event-Shorter (text "Chat") s.chat.service.events_queue s.chat.service id refl e in
      (
        event,
        record s { chat = record (s.chat) { service = v' } },
        ap
            (λ (x : Result ServiceEvent × Service).
              (x.0, record s { chat = record (s.chat) { service = x.1 } }))
            polled,
        omega (arith, shorter),
      )

  minigame-Pollable :
      (s : Server N) (id : ℕ)
      → check_event s.lobby.minigame_session.service ≡ some id
      → Pollable s (minigame_service io).running
  unfolding services chat_service minigame_service lobby_service total_left
  minigame-Pollable s id e =
      let (event, v', polled, shorter) =
        poll_event-Shorter (text "Minigame") s.lobby.minigame_session.service.events_queue
          s.lobby.minigame_session.service id refl e in
      let put : Service → Server N = λ v. record s {
        lobby = record (s.lobby) {
          minigame_session = record (s.lobby.minigame_session) { service = v };
        };
      } in
      (
        event,
        put v',
        ap (λ (x : Result ServiceEvent × Service). (x.0, put x.1)) polled,
        omega (arith, shorter),
      )

  lobby-Pollable :
      (s : Server N) (id : ℕ)
      → check_event s.lobby.service ≡ some id
      → Pollable s (lobby_service io).running
  unfolding services chat_service minigame_service lobby_service total_left
  lobby-Pollable s id e =
      let (event, v', polled, shorter) =
        poll_event-Shorter (text "Lobby") s.lobby.service.events_queue s.lobby.service id refl e in
      (
        event,
        record s { lobby = record (s.lobby) { service = v' } },
        ap
            (λ (x : Result ServiceEvent × Service).
              (x.0, record s { lobby = record (s.lobby) { service = x.1 } }))
            polled,
        omega (arith, shorter),
      )

  abbrev Emits : Server N → ℕ → RunningService (Server N) → Type 0
  Emits s id v = v.next_event_id s ≡ some id → Pollable s v

  among-Pollable :
      (s : Server N) (v : RunningService (Server N)) (id : ℕ)
      → IsAmong s v (protocol_of io)
      → Emits s id v
  unfolding services chat_service minigame_service lobby_service
  among-Pollable s v id (inl e) = subst (Emits s id) (sym e) (chat-Pollable s id)
  among-Pollable s v id (inr (inl e)) = subst (Emits s id) (sym e) (minigame-Pollable s id)
  among-Pollable s v id (inr (inr (inr h))) = elim h [ ]
  among-Pollable s v id (inr (inr (inl e))) = subst (Emits s id) (sym e) (lobby-Pollable s id)

  services-Queues :
      ((event : ServiceEvent) (n : N) → (io.output_event event n).0 ≢ err unfinished)
      → Queues (input_output io) (total_left (services io)) (protocol_of io)
  unfolding input_output services chat_service minigame_service lobby_service total_left
  services-Queues ends = record {
    polls = λ s v id among e. among-Pollable s v id among e;
    outputs = λ event s. refl;
    output_ends = λ event s. ends event s.network;
  }

  -- Over an interface whose output of an event ends, the executor's loop over the events of the three
  -- services ends, with one round more than there are events queued as its fuel. Either it returns, and
  -- not one of the chat, the minigame and the lobby has an event left in its queue, or it throws an error
  -- that is not the model's lack of fuel.
  pub output_all-empties :
      (handlers : Handlers (Server N)) (s : Server N)
      → ((event : ServiceEvent) (n : N) → (io.output_event event n).0 ≢ err unfinished)
      → let out =
          output_all
            (input_output io)
            (pending_timers_of io)
            handlers
            (protocol_of io)
            (services io)
            s in
        ((out.0 ≡ ok tt)
          × (check_event out.1.chat.service ≡ none)
          × (check_event out.1.lobby.minigame_session.service ≡ none)
          × (check_event out.1.lobby.service ≡ none))
        ⊎ ((e : Error) × (out.0 ≡ err e) × (e ≢ unfinished))
  unfolding services chat_service minigame_service lobby_service
  output_all-empties handlers s ends =
      let out =
        output_all (input_output io) (pending_timers_of io) handlers (protocol_of io) (services io)
          s in
      let (stops, silent) =
        output_all-Drains (input_output io) (pending_timers_of io) handlers (protocol_of io)
          (services io) s (services-Queues ends) in
      elim (Result-cases out.0) [
        | inl (tt, h) ↦ let (c, (m, (l, _))) = silent h in inl (h, c, m, l)
        | inr (e, h) ↦ inr (e, h, λ same. stops (h ∙ ap err same))
      ]
