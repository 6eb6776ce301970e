-- ===== src/Messages.antt =====
-- `what()` of the exceptions, as their constructors build it (Grid.hpp, BoardGame.hpp, Timer.hpp,
-- Service.hpp, NetworkBackend.hpp and the others that declare them).
use rp_t_minigames_server.Prelude.{Bool, true, false, [], ◌++◌, Text, text}
use rp_t_minigames_server.Outcome.{
  Error, bad_square_state, bad_dimensions, bad_coordinates, bad_mutable_flag, move_required,
  bad_executor_mode, bad_board_game_state, bad_players_state, bad_service_request, invalid_argument,
  out_of_range, not_enough_words, parsed_index_out_of_range, bad_timer_state, empty_events_queue,
  service_name_already_registered, bad_watched_token, no_error_message, no_uids_list,
  no_more_message, bad_client_message, internal_error, unknown_client_token,
  unavailable_client_token, alive_client, unknown_actor_uid, assertion_failed, undefined_behaviour,
  unfinished,
}
use rp_t_minigames_server.Numbers.{to_string}

unfoldable pub what : Error → Text
what (bad_square_state reason) = reason
what (bad_dimensions reason) = reason
what (bad_coordinates reason) = reason
what (bad_mutable_flag true) = text "Expected mutable=true"
what (bad_mutable_flag false) = text "Expected mutable=false"
what move_required = text "Player can't skip a round"
what bad_executor_mode = text "Executor run already finished once"
what (bad_board_game_state reason) = reason
what (bad_players_state reason) = reason
what (bad_service_request reason) = reason
what (invalid_argument reason) = reason
what (out_of_range reason) = reason
what (not_enough_words actual expected) =
    text "Expected " ++ to_string expected ++ text " words, but only got " ++ to_string actual
what (parsed_index_out_of_range i n) =
    text "Tried to get parsed word " ++ to_string i ++ text " but only has " ++ to_string n
what (bad_timer_state operation expected current) =
    operation
    ++ text ": expected state "
    ++ to_string expected
    ++ text ", current state is "
    ++ to_string current
what (empty_events_queue service) = text "No more events for \"" ++ service ++ text "\""
what (service_name_already_registered name) =
    text "Service with name \"" ++ name ++ text "\" is already registered"
what (bad_watched_token token reason) = text "Timer " ++ to_string token ++ text ":" ++ reason
what no_error_message = text "No error message available, handler completed successfully"
what no_uids_list = text "No UIDs provided, everyone must receive this SE"
what no_more_message = text "No more RPTL messages to send"
what (bad_client_message reason) = reason
what (internal_error reason) = text "Registration failed: " ++ reason
what (unknown_client_token token) =
    text "Client with token " ++ to_string token ++ text " doesn't exist"
what (unavailable_client_token token) =
    text "Client token " ++ to_string token ++ text " is already in use"
what (alive_client token) = text "Client " ++ to_string token ++ text " is alive"
what (unknown_actor_uid uid) = text "No register actor with UID " ++ to_string uid
what assertion_failed = []
what undefined_behaviour = []
what unfinished = []

-- What `catch (const std::exception&)` takes. `ParsedIndexOutOfRange` inherits privately, so that it
-- passes; the last three are no exceptions.
unfoldable pub is_exception : Error → Bool
is_exception (parsed_index_out_of_range i n) = false
is_exception assertion_failed = false
is_exception undefined_behaviour = false
is_exception unfinished = false
is_exception (bad_square_state m) = true
is_exception e = true
