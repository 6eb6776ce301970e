-- ===== src/Tests/Network.antt =====
-- Two clients of the backend, and the messages of one of them.
use rp_t_minigames_server.Prelude.{ℕ, ◌≡◌, refl, true, false, text_eq, none, some, [], ◌∷◌, text}
use rp_t_minigames_server.Utils.HandlingResult.{handled, refused}
use rp_t_minigames_server.Maps.{find, adjust}
use rp_t_minigames_server.Numbers.{stoull}
use rp_t_minigames_server.Utils.TextProtocol.{new_parser, get_parsed_word}
use rp_t_minigames_server.Core.Service.{is_watched}
use rp_t_minigames_server.Network.Backend.{NetworkBackend, Client, new_backend, private_message}
use rp_t_minigames_server.Network.Pipelines.{add_client, close_pipeline_with}
use rp_t_minigames_server.Network.Handlers.{handle_message}
use rp_t_minigames_server.Network.Backend.Registry.{Consistent}
use rp_t_minigames_server.Network.Backend.Closing.{Closed, close_pipeline_with-Closed}
use rp_t_minigames_server.Network.Backend.Reached.{
  Reached, made, added, messaged, synchronized, Reached-Consistent,
}
use rp_t_minigames_server.Network.Websocket.{
  WebsocketBackend, new_websocket_backend, on_backend, synchronize, queue_of, sent_message_handler,
}
use rp_t_minigames_server.Network.Websocket.Fifo.{stream_for}
use rp_t_minigames_server.Network.Websocket.Delivery.{
  Queued, synchronize-stream, private_message-stream,
}

abbrev one_client : NetworkBackend
one_client = (add_client 0 (new_backend 2)).1

abbrev playing : NetworkBackend
playing = (handle_message 0 (text "LOGIN 7 Ann") one_client).1

playing-Reached : Reached playing
playing-Reached = messaged 0 (text "LOGIN 7 Ann") one_client (added 0 (new_backend 2) (made 2))

-- Its messages are synchronized.
abbrev connected : WebsocketBackend
connected = record new_websocket_backend { backend = playing; clients_stream = 0 ∷ [] }

Reached-Consistent_example : Consistent (synchronize connected).backend
Reached-Consistent_example = Reached-Consistent (synchronized connected playing-Reached)

ann-owner : find 7 playing.actors_registry ≡ some 0
unfolding find handle_message add_client new_backend new_parser text get_parsed_word text_eq stoull
    adjust
ann-owner = refl

close_pipeline_with-Closed_example :
    Closed 7 0 (refused (text "late")) (close_pipeline_with 7 (refused (text "late")) playing)
close_pipeline_with-Closed_example =
    close_pipeline_with-Closed 7 0 (refused (text "late")) playing
      (Reached-Consistent playing-Reached) ann-owner

abbrev waiting_client : Client
waiting_client = record {
  status = record { alive = true; disconnection_reason = handled };
  actor = none;
}

-- Two messages wait behind the one that is written.
abbrev sending : WebsocketBackend
sending = record {
  backend = record {
    actors_limit = 2;
    connected_clients = [];
    actors_registry = [];
    clients_remaining_messages = (1, text "c" ∷ []) ∷ [];
    input_events_queue = [];
  };
  closed = false;
  clients_stream = 1 ∷ [];
  tokens_count = 2;
  merged_remaining_messages = (1, text "a") ∷ (1, text "b") ∷ [];
  written = (1, text "a") ∷ [];
  started = [];
}

one-connected : is_watched 1 sending.clients_stream ≡ true
unfolding is_watched
one-connected = refl

synchronize-stream_example :
    (stream_for 1 (synchronize sending) ≡ stream_for 1 sending)
    × (queue_of 1 (synchronize sending).backend ≡ [])
    × ((client_token : ℕ)
        → stream_for 1 (sent_message_handler client_token none sending).1 ≡ stream_for 1 sending)
synchronize-stream_example = synchronize-stream 1 sending one-connected

private_message-stream_example :
    Queued 1 1
      (text "d")
      sending
      (find 1 sending.backend.clients_remaining_messages)
      (on_backend (private_message 1 (text "d")) sending)
private_message-stream_example = private_message-stream 1 1 (text "d") sending
