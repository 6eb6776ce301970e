-- ===== src/Network/Pipelines.antt =====
-- rpt-network/src/NetworkBackend.cpp, the clients that connect, are killed and are removed.
use rp_t_minigames_server.Prelude.{ℕ, true, false, not, [], ◌++◌, Option, none, some, Text, text}
use rp_t_minigames_server.Outcome.{
  unavailable_client_token, alive_client, unknown_actor_uid, Action, gets, modify, guard, ◌>>=◌,
  ◌>>◌,
}
use rp_t_minigames_server.Numbers.{to_string}
use rp_t_minigames_server.Maps.{insert, erase, adjust, has_key, at_key}
use rp_t_minigames_server.Utils.HandlingResult.{HandlingResult, handled}
use rp_t_minigames_server.Core.InputEvent.{left_event}
use rp_t_minigames_server.Network.Backend.{
  Actor, Client, NetworkBackend, is_registered, push_input_event, private_message,
  broadcast_message, known_client, unregister_actor,
}

abbrev pub fresh_client : Client
fresh_client = record {
  status = record { alive = true; disconnection_reason = handled };
  actor = none;
}

unfoldable pub add_client : ℕ → Action NetworkBackend (Unit {0})
add_client new_token = do
  taken ← gets (λ b. has_key new_token b.connected_clients)
  guard (not taken) (unavailable_client_token new_token)
  modify (λ b. record b { connected_clients = insert new_token fresh_client b.connected_clients })
  modify (λ b. record b {
    clients_remaining_messages = insert new_token [] b.clients_remaining_messages;
  })

abbrev pub logged_out : ℕ → Text
logged_out actor = text "LOGGED_OUT" ++ text " " ++ to_string actor

abbrev pub interrupt_message : HandlingResult → Text
interrupt_message r = elim r.possible_error_message [
  | none ↦ text "INTERRUPT"
  | some m ↦ text "INTERRUPT" ++ text " " ++ m
]

-- `closePipelineWith` once the actor is unregistered.
unfoldable pub sync_closed : ℕ → ℕ → HandlingResult → Action NetworkBackend (Unit {0})
unfolding private_message broadcast_message
sync_closed actor owner_client clean_shutdown = do
  private_message owner_client (interrupt_message clean_shutdown)
  broadcast_message (logged_out actor)
  modify (λ b. record b {
    connected_clients =
        adjust owner_client
          (λ c. record c { status = record (c.status) { disconnection_reason = clean_shutdown } })
          b.connected_clients;
  })

-- The left event is queued before the test.
unfoldable pub close_pipeline_with : ℕ → HandlingResult → Action NetworkBackend (Unit {0})
unfolding unregister_actor sync_closed
close_pipeline_with actor clean_shutdown = do
  push_input_event (left_event actor clean_shutdown)
  registered ← gets (is_registered actor)
  guard registered (unknown_actor_uid actor)
  owner_client ← (λ b. (at_key actor b.actors_registry, b))
  unregister_actor actor
  sync_closed actor owner_client clean_shutdown

abbrev pub kill_actor : Option Actor → ℕ → HandlingResult → Action NetworkBackend (Unit {0})
kill_actor (some a) client_token reason = close_pipeline_with a.uid reason
kill_actor none client_token reason = modify λ b. record b {
  connected_clients =
      adjust client_token
        (λ c. record c { status = record { alive = false; disconnection_reason = reason } })
        b.connected_clients;
}

unfoldable pub kill_client : ℕ → HandlingResult → Action NetworkBackend (Unit {0})
unfolding close_pipeline_with
kill_client client_token reason = do
  client ← (λ b. (known_client client_token b, b))
  kill_actor client.actor client_token reason

unfoldable pub remove_client : ℕ → Action NetworkBackend (Unit {0})
remove_client old_token = do
  client ← (λ b. (known_client old_token b, b))
  guard (not client.status.alive) (alive_client old_token)
  modify (λ b. record b { connected_clients = erase old_token b.connected_clients })
  modify
      (λ b. record b { clients_remaining_messages = erase old_token b.clients_remaining_messages })
