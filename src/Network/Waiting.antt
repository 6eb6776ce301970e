-- ===== src/Network/Waiting.antt =====
-- rpt-network/include/RpT-Network/BeastWebsocketBackendBase.inl, the wait for an input event, and the
-- completions of Asio that end it.
use rp_t_minigames_server.Prelude.{
  ℕ, Bool, true, false, not, List, [], ◌∷◌, Option, none, some, Text, if◌then◌else◌, is_empty,
}
use rp_t_minigames_server.Outcome.{
  Result, ok, err, assertion_failed, unfinished, Action, pure, throw, gets, modify, ◌>>=◌, ◌>>◌,
}
use rp_t_minigames_server.Utils.HandlingResult.{handled}
use rp_t_minigames_server.Core.InputEvent.{InputEvent, none_event, timer_event}
use rp_t_minigames_server.Network.Backend.{
  NetworkBackend, push_input_event, poll_input_event, is_alive,
}
use rp_t_minigames_server.Network.Pipelines.{kill_client}
use rp_t_minigames_server.Network.Websocket.{
  IoError, is_aborted, async_accept, open_websocket_stream, stop_context, WebsocketBackend,
  on_backend, begin, sent_message_handler, receive_message, receive_error, close_stream,
  add_client_stream, synchronize,
}

-- The clients whose streams are to be closed, among those given.
unfoldable pub dead_clients : List ℕ → NetworkBackend → Result (List ℕ)
dead_clients [] b = ok []
dead_clients (token ∷ tokens) b =
    let rest = dead_clients tokens b in
    elim (is_alive token b) [
      | err e ↦ err e
      | ok true ↦ rest
      | ok false ↦ elim rest [ err e ↦ err e | ok dead ↦ ok (token ∷ dead) ]
    ]

unfoldable pub close_streams : List ℕ → Action WebsocketBackend (Unit {0})
unfolding close_stream
close_streams [] w = (ok tt, w)
close_streams (token ∷ tokens) w = (close_stream token >> close_streams tokens) w

unfoldable pub kill_clients : List ℕ → Action WebsocketBackend (Unit {0})
kill_clients [] w = (ok tt, w)
kill_clients (token ∷ tokens) w = (on_backend (kill_client token handled) >> kill_clients tokens) w

unfoldable pub close : Action WebsocketBackend (Unit {0})
unfolding kill_clients synchronize close_streams
close = do
  client_tokens ← gets (λ w. w.clients_stream)
  kill_clients client_tokens
  modify synchronize
  close_streams client_tokens
  on_backend (push_input_event (none_event 0))
  begin stop_context
  modify (λ w. record w { closed = true })

unfoldable pub close_dead_clients : Action WebsocketBackend (Unit {0})
unfolding dead_clients close_streams
close_dead_clients = do
  dead ← (λ w. (dead_clients w.clients_stream w.backend, w))
  close_streams dead

-- What `run_one` may find completed: an accepted connection, an open Websocket stream, a read, a write, a
-- countdown, a signal, and a closure, whose handler only logs.
pub data Completion : Type 0 where
  accepted opened signaled : Option IoError → Completion
  received : ℕ → Text → Completion
  not_received : ℕ → IoError → Completion
  sent timed_out stream_closed : ℕ → Option IoError → Completion

-- `waitNextClient`'s handler.
unfoldable pub accept_handler : Option IoError → Action WebsocketBackend (Unit {0})
accept_handler none = do begin open_websocket_stream; begin async_accept
accept_handler (some e) = if is_aborted e then pure tt else begin async_accept

-- A stream that does not open is no client.
abbrev pub open_handler : Option IoError → Action WebsocketBackend (Unit {0})
open_handler none = add_client_stream
open_handler (some e) = pure tt

abbrev pub signal_handler : Option IoError → Action WebsocketBackend (Unit {0})
signal_handler none = close
signal_handler (some e) = pure tt

abbrev pub timer_handler : ℕ → Option IoError → Action WebsocketBackend (Unit {0})
timer_handler token none = on_backend (push_input_event (timer_event 0 token))
timer_handler token (some e) = pure tt

unfoldable pub run_handler : Completion → Action WebsocketBackend (Unit {0})
unfolding accept_handler add_client_stream close receive_message receive_error sent_message_handler
run_handler (accepted e) = accept_handler e
run_handler (opened e) = open_handler e
run_handler (signaled e) = signal_handler e
run_handler (received token message) = receive_message token message
run_handler (not_received token e) = receive_error token e
run_handler (sent token e) = sent_message_handler token e
run_handler (timed_out token e) = timer_handler token e
run_handler (stream_closed token e) = pure tt

abbrev pub input_ready : NetworkBackend → Bool
input_ready b = not (is_empty b.input_events_queue)

-- The loop of `waitForEvent`, with the completions that are left. When none is left it blocks.
unfoldable pub run_until_ready : List Completion → Action WebsocketBackend (List Completion)
unfolding close_dead_clients run_handler
run_until_ready [] w =
    if input_ready w.backend then (ok [], w) else (close_dead_clients >> throw unfinished) w
run_until_ready (c ∷ completions) w =
    let rest = (do close_dead_clients; run_handler c; run_until_ready completions) w in
    if input_ready w.backend then (ok (c ∷ completions), w) else rest

unfoldable pub wait_for_event : List Completion → Action WebsocketBackend (List Completion)
unfolding synchronize run_until_ready
wait_for_event completions = do modify synchronize; run_until_ready completions

-- `NetworkBackend::waitForInput`.
abbrev pub waited :
    List Completion → Option InputEvent → Action WebsocketBackend (InputEvent × List Completion)
waited completions (some last_input_event) = pure (last_input_event, completions)
waited completions none = do
  rest ← wait_for_event completions
  event ← on_backend (λ b. let (e, b') = poll_input_event b in (ok e, b'))
  elim event [ some e ↦ pure (e, rest) | none ↦ throw assertion_failed ]

unfoldable pub wait_for_input :
    List Completion → Action WebsocketBackend (InputEvent × List Completion)
unfolding wait_for_event
wait_for_input completions = do
  last_input_event ← on_backend (λ b. let (e, b') = poll_input_event b in (ok e, b'))
  waited completions last_input_event
