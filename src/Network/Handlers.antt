-- ===== src/Network/Handlers.antt =====
-- rpt-network/src/NetworkBackend.cpp, the messages of the clients, registered as actors or not.
use rp_t_minigames_server.Prelude.{
  ℕ, not, ◌++◌, Option, none, some, Text, text, text_eq, leb, if◌then◌else◌, length, is_empty,
}
use rp_t_minigames_server.Outcome.{
  Result, ok, err, bad_client_message, internal_error, not_enough_words, assertion_failed, Action,
  pure, throw, lift, gets, guard, ◌>>=◌, ◌>>◌,
}
use rp_t_minigames_server.Numbers.{to_string}
use rp_t_minigames_server.Messages.{what, is_exception}
use rp_t_minigames_server.Maps.{at_key}
use rp_t_minigames_server.Utils.HandlingResult.{handled}
use rp_t_minigames_server.Utils.TextProtocol.{new_parser}
use rp_t_minigames_server.Core.InputEvent.{
  InputEvent, none_event, service_request_event, joined_event, left_event,
}
use rp_t_minigames_server.Network.Commands.{parse_rptl, too_many_arguments, parse_handshake}
use rp_t_minigames_server.Network.Backend.{
  Actor, NetworkBackend, is_registered, private_message, broadcast_message, register_actor,
  unregister_actor, format_registration_message,
}
use rp_t_minigames_server.Network.Pipelines.{logged_out}

-- The inner `try` of a handshake. A failure that is an exception becomes an `InternalError`, if the
-- actor was not registered.
abbrev pub registration_failed :
    {A : Type 0} → ℕ → Result A × NetworkBackend → Result A × NetworkBackend
registration_failed uid (ok a, b) = (ok a, b)
registration_failed uid (err e, b) = (
  if is_exception e
      then if is_registered uid b then err assertion_failed else err (internal_error (what e))
      else err e,
  b,
)

unfoldable pub register_new : ℕ → ℕ → Text → Action NetworkBackend (Unit {0})
unfolding register_actor format_registration_message private_message broadcast_message
register_new client_token new_actor_uid new_actor_name = do
  register_actor client_token new_actor_uid new_actor_name
  registered ← gets (is_registered new_actor_uid)
  guard registered assertion_failed
  registration ← gets format_registration_message
  private_message client_token registration
  broadcast_message
      (text "LOGGED_IN" ++ text " " ++ to_string new_actor_uid ++ text " " ++ new_actor_name)

unfoldable pub handle_handshake : ℕ → Text → Action NetworkBackend InputEvent
unfolding parse_handshake register_new
handle_handshake client_token arguments = do
  handshake ← lift (parse_handshake arguments)
  actors_count ← gets (λ b. length b.actors_registry)
  limit ← gets (λ b. b.actors_limit)
  guard (not (leb limit actors_count))
      (internal_error (text "Limit of " ++ to_string limit ++ text " reached"))
  registered ← gets (is_registered handshake.0)
  guard (not registered)
      (internal_error (text "Player UID \"" ++ to_string handshake.0 ++ text "\" is not available"))
  (λ b. registration_failed handshake.0 (register_new client_token handshake.0 handshake.1 b))
  pure (joined_event handshake.0 handshake.1)

unfoldable pub handle_checkout : ℕ → Text → Action NetworkBackend InputEvent
unfolding private_message
handle_checkout client_token arguments = do
  guard (is_empty arguments)
      (bad_client_message (text "No arguments expected with command CHECKOUT"))
  actors_count ← gets (λ b. length b.actors_registry)
  limit ← gets (λ b. b.actors_limit)
  private_message client_token
      (text "AVAILABILITY" ++ text " " ++ to_string actors_count ++ text " " ++ to_string limit)
  pure (none_event 0)

-- The `catch` of `NotEnoughWords` around both handlers.
abbrev pub not_empty : {A : Type 0} → Result A → Result A
not_empty (ok a) = ok a
not_empty (err (not_enough_words n expected)) =
    err (bad_client_message (text "RPTL command must NOT be empty"))
not_empty (err e) = err e

abbrev pub empty_command : {A : Type 0} → Result A × NetworkBackend → Result A × NetworkBackend
empty_command x = (not_empty x.0, x.1)

-- By the invoked command.
abbrev pub dispatch_unregistered : ℕ → Text × Text → Action NetworkBackend InputEvent
dispatch_unregistered client_token (invoked, arguments) =
    if text_eq invoked (text "CHECKOUT")
    then handle_checkout client_token arguments
    else if text_eq invoked (text "LOGIN")
    then handle_handshake client_token arguments
    else throw (bad_client_message (text "Unknown RPTL command for unregistered mode: " ++ invoked))

unfoldable pub handle_from_unregistered : ℕ → Text → Action NetworkBackend InputEvent
unfolding parse_rptl handle_checkout handle_handshake
handle_from_unregistered client_token message b =
    empty_command
      ((do command ← lift (parse_rptl message); dispatch_unregistered client_token command) b)

-- `ServiceCommandParser` wants no word: it only drops the spaces in front.
abbrev pub service_request : ℕ → Text → Action NetworkBackend InputEvent
service_request client_actor arguments = do
  parser ← lift (new_parser arguments 0)
  pure (service_request_event client_actor parser.unparsed_words)

unfoldable pub handle_logout : ℕ → Text → Action NetworkBackend InputEvent
unfolding unregister_actor private_message broadcast_message
handle_logout client_actor arguments = do
  guard (is_empty arguments) (too_many_arguments (text "LOGOUT"))
  owner_client ← (λ b. (at_key client_actor b.actors_registry, b))
  unregister_actor client_actor
  private_message owner_client (text "INTERRUPT")
  broadcast_message (logged_out client_actor)
  pure (left_event client_actor handled)

abbrev pub dispatch_registered : ℕ → Text × Text → Action NetworkBackend InputEvent
dispatch_registered client_actor (invoked, arguments) =
    if text_eq invoked (text "SERVICE")
    then service_request client_actor arguments
    else if text_eq invoked (text "LOGOUT")
    then handle_logout client_actor arguments
    else throw (bad_client_message (text "Unknown RPTL command fom registered mode: " ++ invoked))

unfoldable pub handle_from_actor : ℕ → Text → Action NetworkBackend InputEvent
unfolding parse_rptl handle_logout
handle_from_actor client_actor regular_message b =
    empty_command
      ((do command ← lift (parse_rptl regular_message); dispatch_registered client_actor command) b)

abbrev pub handle_by : Option Actor → ℕ → Text → Action NetworkBackend InputEvent
handle_by none client_token client_message = handle_from_unregistered client_token client_message
handle_by (some a) client_token client_message = handle_from_actor a.uid client_message

unfoldable pub handle_message : ℕ → Text → Action NetworkBackend InputEvent
unfolding handle_from_unregistered handle_from_actor
handle_message client_token client_message = do
  client ← (λ b. (at_key client_token b.connected_clients, b))
  handle_by client.actor client_token client_message
