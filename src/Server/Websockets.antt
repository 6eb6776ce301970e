-- ===== src/Server/Websockets.antt =====
-- The websocket backend as the I/O interface of the executor (the overrides that
-- rpt-network/include/RpT-Network/BeastWebsocketBackendBase.inl and NetworkBackend.hpp declare), with the
-- completions that Asio has yet to hand out.
use rp_t_minigames_server.Prelude.{ℕ, ◌≢◌, List, [], ◌∷◌, ◌++◌, Option, none, some, Text}
use rp_t_minigames_server.Outcome.{Result, ok, err, unfinished, Action, zoom}
use rp_t_minigames_server.Outcome.Ends.{after-ends}
use rp_t_minigames_server.Maps.{find, found}
use rp_t_minigames_server.Core.Service.{ServiceEvent}
use rp_t_minigames_server.Core.InputEvent.{InputEvent}
use rp_t_minigames_server.Network.Backend.{
  NetworkBackend, reply_to, output_event, output_to, target_message, private_message,
  broadcast_message, registry_uids,
}
use rp_t_minigames_server.Network.Pipelines.{close_pipeline_with}
use rp_t_minigames_server.Network.Websocket.{
  WebsocketBackend, Started, async_wait, cancel_wait, on_backend,
}
use rp_t_minigames_server.Network.Waiting.{Completion, wait_for_input}
use rp_t_minigames_server.Server.{Network}

abbrev pub Scheduled : Type 0
Scheduled = WebsocketBackend × List Completion

abbrev pub on_websocket : {A : Type 0} → Action NetworkBackend A → Action Scheduled A
on_websocket act = zoom (λ n. n.0) (λ w n. (w, n.1)) (on_backend act)

abbrev waited_for :
    List Completion
    → Result (InputEvent × List Completion) × WebsocketBackend
    → Result InputEvent × Scheduled
waited_for completions (ok (event, rest), w) = (ok event, (w, rest))
waited_for completions (err e, w) = (err e, (w, completions))

abbrev pub starting : Started → Scheduled → Scheduled
starting operation (w, completions) =
    (record w { started = w.started ++ operation ∷ [] }, completions)

unfoldable pub websocket_network : Network Scheduled
websocket_network = record {
  closed = λ n. n.0.closed;
  wait_for_input = λ n. waited_for n.1 (wait_for_input n.1 n.0);
  reply_to = λ actor response. on_websocket (reply_to actor response);
  output_event = λ event. on_websocket (output_event event);
  close_pipeline_with = λ actor reason. on_websocket (close_pipeline_with actor reason);
  begin_wait = λ token countdown. starting (async_wait token countdown);
  cancel_wait = λ token. starting (cancel_wait token);
}

-- A lookup fails in one way.
found-ends : {V : Type 0} (o : Option V) → found o ≢ err unfinished
found-ends none h = cc
found-ends (some v) h = cc

private_message-ends :
    (t : ℕ) (m : Text) (b : NetworkBackend) → (private_message t m b).0 ≢ err unfinished
unfolding private_message
private_message-ends t m b =
    after-ends (found (find t b.clients_remaining_messages)) _ b
      (found-ends (find t b.clients_remaining_messages)) λ q _ h. cc

target_message-ends :
    (uids : List ℕ) (m : Text) (b : NetworkBackend) → (target_message uids m b).0 ≢ err unfinished
unfolding target_message
target_message-ends [] m b = done
  where
    done : (target_message [] m b).0 ≢ err unfinished
    done h = cc
target_message-ends (uid ∷ uids) m b =
    after-ends (found (find uid b.actors_registry)) _ b (found-ends (find uid b.actors_registry))
      λ t _.
        after-ends (private_message t m b).0 _ (private_message t m b).1
          (private_message-ends t m b) λ u _. target_message-ends uids m (private_message t m b).1

output_to-ends :
    (targets : Option (List ℕ)) (command : Text) (b : NetworkBackend)
    → (output_to targets command b).0 ≢ err unfinished
unfolding broadcast_message
output_to-ends none command b = target_message-ends (registry_uids b) command b
output_to-ends (some uids) command b = target_message-ends uids command b

pub output_event-ends :
    (event : ServiceEvent) (n : Scheduled)
    → (websocket_network.output_event event n).0 ≢ err unfinished
unfolding websocket_network output_event
output_event-ends event n = output_to-ends event.event_targets _ n.0.backend
