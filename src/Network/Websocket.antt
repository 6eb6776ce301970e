-- ===== src/Network/Websocket.antt =====
-- rpt-network/include/RpT-Network/BeastWebsocketBackendBase.inl, and what NetworkBackend.cpp calls of
-- it. Boost.Asio and Boost.Beast are outside: the operations that the code starts are kept in order in
-- `started` and `written`, and the completions that `run_one` hands to its handlers are a list.
pub mod Fifo
pub mod Delivery
use rp_t_minigames_server.Prelude.{
  ℕ, ◌+◌, ◌%◌, ◌^◌, Bool, true, false, not, ◌&&◌, List, [], ◌∷◌, ◌++◌, map, Option, none, some,
  Text, text, ◌==◌, if◌then◌else◌, is_empty,
}
use rp_t_minigames_server.Outcome.{
  Result, ok, err, out_of_range, assertion_failed, undefined_behaviour, unfinished, Action, pure,
  throw, lift, gets, modify, guard, zoom, ◌>>=◌, ◌>>◌,
}
use rp_t_minigames_server.Messages.{what, is_exception}
use rp_t_minigames_server.Maps.{find, adjust, at_key}
use rp_t_minigames_server.Utils.HandlingResult.{HandlingResult, handled, refused}
use rp_t_minigames_server.Core.Service.{is_watched, forget}
use rp_t_minigames_server.Core.InputEvent.{
  InputEvent, none_event, service_request_event, timer_event, joined_event, left_event,
}
use rp_t_minigames_server.Network.Backend.{
  NetworkBackend, new_backend, push_input_event, poll_input_event, is_alive,
  disconnection_reason_of,
}
use rp_t_minigames_server.Network.Pipelines.{add_client, kill_client, remove_client}
use rp_t_minigames_server.Network.Handlers.{handle_message}

-- A `boost::system::error_code`: the two that the code tests for, and any other.
pub data ErrorCode : Type 0 where
  operation_aborted websocket_closed other_error : ErrorCode

pub record IoError : Type 0 where
  pub code : ErrorCode
  pub message : Text

abbrev pub is_aborted : IoError → Bool
is_aborted e = elim e.code [
  | operation_aborted ↦ true
  | websocket_closed ↦ false
  | other_error ↦ false
]

-- The operations other than the writes.
pub data Started : Type 0 where
  async_accept open_websocket_stream stop_context : Started
  async_read : ℕ → Started
  async_close : ℕ → HandlingResult → Started
  async_close_new : Started
  async_wait : ℕ → ℕ → Started
  cancel_wait : ℕ → Started

pub record WebsocketBackend : Type 0 where
  pub backend : NetworkBackend
  pub closed : Bool
  pub clients_stream : List ℕ
  pub tokens_count : ℕ
  pub merged_remaining_messages : List (ℕ × Text)
  pub written : List (ℕ × Text)
  pub started : List Started

abbrev pub on_backend : {A : Type 0} → Action NetworkBackend A → Action WebsocketBackend A
on_backend = zoom (λ w. w.backend) (λ b w. record w { backend = b })

abbrev pub begin : Started → Action WebsocketBackend (Unit {0})
begin operation = modify λ w. record w { started = w.started ++ operation ∷ [] }

-- The constructor, with `start`; two players.
unfoldable pub new_websocket_backend : WebsocketBackend
new_websocket_backend = record {
  backend = new_backend 2;
  closed = false;
  clients_stream = [];
  tokens_count = 0;
  merged_remaining_messages = [];
  written = [];
  started = async_accept ∷ [];
}

-- `sendRemainingMessages` on the queue's content: messages to clients that left are skipped, and the one
-- that is written stays in the queue until its handler.
unfoldable pub send_from : List (ℕ × Text) → WebsocketBackend → WebsocketBackend
send_from [] w = record w { merged_remaining_messages = [] }
send_from ((client, rptl_message) ∷ remaining) w =
    let next = send_from remaining w in
    if is_watched client w.clients_stream
    then record w {
      merged_remaining_messages = (client, rptl_message) ∷ remaining;
      written = w.written ++ (client, rptl_message) ∷ [];
    }
    else next

abbrev pub send_remaining_messages : WebsocketBackend → WebsocketBackend
send_remaining_messages w = send_from w.merged_remaining_messages w

-- `pop`, undefined on an empty queue.
unfoldable pub pop_message : Action WebsocketBackend (Unit {0})
pop_message w = elim w.merged_remaining_messages [
  | [] ↦ (err undefined_behaviour, w)
  | m ∷ queue ↦ (ok tt, record w { merged_remaining_messages = queue })
]

abbrev pub kill_for : ℕ → Option IoError → Action WebsocketBackend (Unit {0})
kill_for client_token none = pure tt
kill_for client_token (some e) =
    if is_aborted e then pure tt else on_backend (kill_client client_token (refused e.message))

abbrev pub send_next : WebsocketBackend → WebsocketBackend
send_next w = if is_empty w.merged_remaining_messages then w else send_remaining_messages w

-- `SentMessageHandler`.
unfoldable pub sent_message_handler : ℕ → Option IoError → Action WebsocketBackend (Unit {0})
unfolding pop_message
sent_message_handler client_token e = do pop_message; kill_for client_token e; modify send_next

-- `TriggeredInputEventVisitor`.
unfoldable pub visit_triggered : ℕ → InputEvent → Action WebsocketBackend (Unit {0})
visit_triggered sender_token (left_event actor reason) =
    on_backend (kill_client sender_token handled)
visit_triggered sender_token (none_event actor) = pure tt
visit_triggered sender_token (service_request_event actor request) = pure tt
visit_triggered sender_token (timer_event actor token) = pure tt
visit_triggered sender_token (joined_event actor name) = pure tt

abbrev pub no_stream : {A : Type 0} → Action WebsocketBackend A
no_stream = throw (out_of_range (text "_Map_base::at"))

unfoldable pub listen_message_from : ℕ → Action WebsocketBackend (Unit {0})
listen_message_from client_token w =
    (if is_watched client_token w.clients_stream
        then begin (async_read client_token)
        else no_stream)
      w

-- A `catch` of every exception.
abbrev pub caught_by :
    (Text → Action WebsocketBackend (Unit {0}))
    → Result (Unit {0}) × WebsocketBackend
    → Result (Unit {0}) × WebsocketBackend
caught_by handler (ok a, w) = (ok a, w)
caught_by handler (err e, w) = if is_exception e then handler (what e) w else (err e, w)

-- The handler of a read that brought a message.
unfoldable pub receive_message : ℕ → Text → Action WebsocketBackend (Unit {0})
unfolding visit_triggered listen_message_from
receive_message client_token rptl_message w =
    caught_by (λ reason. on_backend (kill_client client_token (refused reason)))
      ((do
        client_triggered_event ← on_backend (handle_message client_token rptl_message)
        visit_triggered client_token client_triggered_event
        on_backend (push_input_event client_triggered_event)
        listen_message_from client_token)
        w)

-- The handler of a read that failed.
unfoldable pub receive_error : ℕ → IoError → Action WebsocketBackend (Unit {0})
receive_error client_token e = elim e.code [
  | operation_aborted ↦ pure tt
  | websocket_closed ↦ on_backend (kill_client client_token handled)
  | other_error ↦ on_backend (kill_client client_token (refused e.message))
]

unfoldable pub close_stream : ℕ → Action WebsocketBackend (Unit {0})
close_stream client_token = do
  disconnection_reason ← on_backend (λ b. (disconnection_reason_of client_token b, b))
  on_backend (remove_client client_token)
  connected ← gets (λ w. is_watched client_token w.clients_stream)
  guard connected (out_of_range (text "_Map_base::at"))
  modify (λ w. record w { clients_stream = forget client_token w.clients_stream })
  begin (async_close client_token disconnection_reason)

-- The body of the `try` in `addClientStream`; `tokens_count_++` is done whatever follows.
unfoldable pub insert_client : ℕ → Action WebsocketBackend (Unit {0})
unfolding listen_message_from
insert_client new_client_token = do
  on_backend (add_client new_client_token)
  taken ← gets (λ w. is_watched new_client_token w.clients_stream)
  guard (not taken) assertion_failed
  modify (λ w. record w { clients_stream = w.clients_stream ++ new_client_token ∷ [] })
  listen_message_from new_client_token

unfoldable pub add_client_stream : Action WebsocketBackend (Unit {0})
unfolding insert_client
add_client_stream w =
    caught_by (λ reason. begin async_close_new)
      (insert_client w.tokens_count (record w { tokens_count = (w.tokens_count + 1) % 2 ^ 64 }))

abbrev pub queue_of : ℕ → NetworkBackend → List Text
queue_of client_token b = elim (find client_token b.clients_remaining_messages) [
  | none ↦ []
  | some queue ↦ queue
]

abbrev pub emptied : ℕ → NetworkBackend → NetworkBackend
emptied client_token b = record b {
  clients_remaining_messages = adjust client_token (λ q. []) b.clients_remaining_messages;
}

-- `syncClient`: the view pops the client's whole queue. Sending starts unless it is under way.
unfoldable pub sync_client : ℕ → WebsocketBackend → WebsocketBackend
sync_client client_token w =
    let merged = record w {
      backend = emptied client_token w.backend;
      merged_remaining_messages =
          w.merged_remaining_messages
          ++ map (λ (m : Text). (client_token, m)) (queue_of client_token w.backend);
    } in
    if is_empty w.merged_remaining_messages then send_next merged else merged

unfoldable pub sync_clients : List ℕ → WebsocketBackend → WebsocketBackend
unfolding sync_client
sync_clients [] w = w
sync_clients (t ∷ tokens) w = sync_clients tokens (sync_client t w)

unfoldable pub synchronize : WebsocketBackend → WebsocketBackend
unfolding sync_clients
synchronize w =
    sync_clients (map (λ (entry : ℕ × List Text). entry.0) w.backend.clients_remaining_messages) w
