-- ===== src/Network/Backend/Reached.antt =====
-- The backends that the calls of the executor and of the websocket backends lead to.
use rp_t_minigames_server.Prelude.{
  ℕ, ◌≡◌, refl, sym, ◌∙◌, ap, subst, map, inl, inr, Bool, true, false, not, Option-cases, List, [],
  ◌∷◌, Option, none, some, Text,
}
use rp_t_minigames_server.Outcome.{
  ok, Error, check, unknown_actor_uid, unavailable_client_token, alive_client,
}
use rp_t_minigames_server.Utils.HandlingResult.{HandlingResult}
use rp_t_minigames_server.Maps.{find, has_key}
use rp_t_minigames_server.Maps.Lookup.{no_value}
use rp_t_minigames_server.Core.Service.{ServiceEvent}
use rp_t_minigames_server.Core.InputEvent.{InputEvent, left_event}
use rp_t_minigames_server.Network.Backend.{
  NetworkBackend, Client, Actor, new_backend, known, push_input_event, polled, reply_to,
  output_event, poll_input_event, is_registered,
}
use rp_t_minigames_server.Network.Pipelines.{
  add_client, kill_client, remove_client, close_pipeline_with,
}
use rp_t_minigames_server.Network.Handlers.{handle_message}
use rp_t_minigames_server.Network.Backend.Registry.{
  Consistent, new_backend-Consistent, queues-Consistent, insert-Consistent, erase-Consistent,
}
use rp_t_minigames_server.Network.Backend.Closing.{
  with_event, with_event-Consistent, close_pipeline_with-Closed, kill_client-Killed,
}
use rp_t_minigames_server.Network.Websocket.{
  WebsocketBackend, sync_client, sync_clients, synchronize,
}
use rp_t_minigames_server.Network.Websocket.Fifo.{sync_client-backend}
use rp_t_minigames_server.Network.Backend.Login.{held_client}
use rp_t_minigames_server.Network.Backend.Sessions.{
  Steady, Steady-step, reply_to-Steady, output_event-Steady, handle_message-Steady,
}

absent-find : (o : Option Client) → not (elim o [ none ↦ false | some c ↦ true ]) ≡ true → o ≡ none
absent-find none h = refl
absent-find (some c) h = cc

passed : (x : Bool) (e : Error) → check x e ≡ ok tt → x ≡ true
passed true e h = refl
passed false e h = cc

clash : false ≡ true → ⊥
clash h = cc

add_client-Steady : (t : ℕ) → Steady (add_client t)
unfolding add_client
add_client-Steady t b k =
    Steady-step (check (not (has_key t b.connected_clients)) (unavailable_client_token t), b) _ k
      λ _ free. insert-Consistent t b (absent-find (find t b.connected_clients) (passed _ _ free)) k

-- A client who is not alive has no actor.
dead-idle :
    (t : ℕ) (c : Client) (b : NetworkBackend) (o : Option Actor)
    → Consistent b
    → find t b.connected_clients ≡ some c
    → c.status.alive ≡ false
    → c.actor ≡ o
    → c.actor ≡ none
dead-idle t c b none k there over e = e
dead-idle t c b (some a) k there over e =
    let (d, a', held, acts, is, alive) = k.registered a.uid t (k.owned t c a there e) in
    absurd (clash (sym over ∙ ap alive_of (same (sym there ∙ held)) ∙ alive))
  where
    alive_of : Client → Bool
    alive_of x = x.status.alive

    same : {x y : Client} → some x ≡ some y → x ≡ y
    same h = cc

remove_client-Steady : (t : ℕ) → Steady (remove_client t)
unfolding remove_client
remove_client-Steady t b k =
    Steady-step (known t (find t b.connected_clients), b) _ k
      λ c found.
        Steady-step (check (not c.status.alive) (alive_client t), b) _ k
          λ _ over.
            let there = sym (held_client t (find t b.connected_clients) found) in
            erase-Consistent t c b there
              (dead-idle t c b c.actor k there (off c.status.alive (passed _ _ over)) refl) k
  where
    off : (x : Bool) → not x ≡ true → x ≡ false
    off true h = cc
    off false h = refl

kill_client-Steady : (t : ℕ) (r : HandlingResult) → Steady (kill_client t r)
unfolding kill_client
kill_client-Steady t r b k = elim (Option-cases (find t b.connected_clients)) [
  | inr (c, there) ↦ (kill_client-Killed t r b c k there).consistent
  | inl absent ↦
      Steady-step (known t (find t b.connected_clients), b) _ k
        λ c found.
          absurd (no_value (sym absent ∙ sym (held_client t (find t b.connected_clients) found)))
]

abbrev listed : Option ℕ → Bool
listed o = elim o [ none ↦ false | some t ↦ true ]

close_pipeline_with-Steady : (actor : ℕ) (r : HandlingResult) → Steady (close_pipeline_with actor r)
unfolding close_pipeline_with
close_pipeline_with-Steady actor r b k = elim (Option-cases (find actor b.actors_registry)) [
  | inr (t, owns) ↦ (close_pipeline_with-Closed actor t r b k owns).consistent
  | inl absent ↦
      let b0 = with_event (left_event actor r) b in
      Steady-step (check (is_registered actor b) (unknown_actor_uid actor), b0) _
        (with_event-Consistent (left_event actor r) b k)
        λ _ there. absurd (clash (sym (ap listed absent) ∙ passed _ _ there))
]

polled-Consistent :
    (queue : List InputEvent) (b : NetworkBackend) → Consistent b → Consistent (polled queue b).1
polled-Consistent [] b k = k
polled-Consistent (e ∷ queue) b k = record {
  registered = k.registered;
  owned = k.owned;
  queued = k.queued;
}

merged-Consistent :
    (tokens : List ℕ) (w : WebsocketBackend)
    → Consistent w.backend
    → Consistent (sync_clients tokens w).backend
unfolding sync_clients
merged-Consistent [] w k = k
merged-Consistent (t ∷ tokens) w k =
    merged-Consistent tokens (sync_client t w)
      (subst Consistent (sym (sync_client-backend t w)) (queues-Consistent t (λ q. []) w.backend k))

synchronize-Consistent :
    (w : WebsocketBackend) → Consistent w.backend → Consistent (synchronize w).backend
unfolding synchronize
synchronize-Consistent w k =
    merged-Consistent
      (map (λ (entry : ℕ × List Text). entry.0) w.backend.clients_remaining_messages) w k

-- What the executor and the websocket backends call, from a new backend on; a synchronization is that of
-- a websocket backend with any streams and any messages in its merged queue.
pub data Reached : NetworkBackend → Type 0 where
  made : (limit : ℕ) → Reached (new_backend limit)
  added : (t : ℕ) (b : NetworkBackend) → Reached b → Reached (add_client t b).1
  killed :
      (t : ℕ) (r : HandlingResult) (b : NetworkBackend) → Reached b → Reached (kill_client t r b).1
  removed : (t : ℕ) (b : NetworkBackend) → Reached b → Reached (remove_client t b).1
  closed :
      (actor : ℕ) (r : HandlingResult) (b : NetworkBackend)
      → Reached b
      → Reached (close_pipeline_with actor r b).1
  messaged : (t : ℕ) (m : Text) (b : NetworkBackend) → Reached b → Reached (handle_message t m b).1
  replied : (actor : ℕ) (m : Text) (b : NetworkBackend) → Reached b → Reached (reply_to actor m b).1
  output : (e : ServiceEvent) (b : NetworkBackend) → Reached b → Reached (output_event e b).1
  pushed : (e : InputEvent) (b : NetworkBackend) → Reached b → Reached (push_input_event e b).1
  synchronized : (w : WebsocketBackend) → Reached w.backend → Reached (synchronize w).backend
  taken : (b : NetworkBackend) → Reached b → Reached (poll_input_event b).1

-- After any sequence of the calls that the executor and the websocket backends make on a backend, the
-- synchronizations and those that throw included, with any tokens, identifiers and messages, its maps
-- agree: an actor in the registry is that of a client who is alive, the actor of a client is in the
-- registry, for this client, and every client has a queue of messages.
pub Reached-Consistent : {b : NetworkBackend} → Reached b → Consistent b
unfolding poll_input_event
Reached-Consistent (made limit) = new_backend-Consistent limit
Reached-Consistent (added t b r) = add_client-Steady t b (Reached-Consistent r)
Reached-Consistent (killed t reason b r) = kill_client-Steady t reason b (Reached-Consistent r)
Reached-Consistent (removed t b r) = remove_client-Steady t b (Reached-Consistent r)
Reached-Consistent (closed actor reason b r) =
    close_pipeline_with-Steady actor reason b (Reached-Consistent r)
Reached-Consistent (messaged t m b r) = handle_message-Steady t m b (Reached-Consistent r)
Reached-Consistent (replied actor m b r) = reply_to-Steady actor m b (Reached-Consistent r)
Reached-Consistent (output e b r) = output_event-Steady e b (Reached-Consistent r)
Reached-Consistent (pushed e b r) = with_event-Consistent e b (Reached-Consistent r)
Reached-Consistent (synchronized w r) = synchronize-Consistent w (Reached-Consistent r)
Reached-Consistent (taken b r) = polled-Consistent b.input_events_queue b (Reached-Consistent r)
