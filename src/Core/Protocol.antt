-- ===== src/Core/Protocol.antt =====
-- rpt-core/src/ServiceEventRequestProtocol.cpp and its header. A running service is what the protocol
-- calls of it, on the state `W` that the services share; the map from names is a list.
pub mod Emitters
pub mod Requests
pub mod Answers
use rp_t_minigames_server.Prelude.{
  ℕ, List, [], ◌∷◌, ◌++◌, Option, none, some, Text, text, text_eq, ltb, if◌then◌else◌,
}
use rp_t_minigames_server.Outcome.{
  Result, ok, err, Error, bad_service_request, invalid_argument, not_enough_words,
  service_name_already_registered, bind, check, Action, pure, lift, ◌>>=◌,
}
use rp_t_minigames_server.Numbers.{to_string, stoull}
use rp_t_minigames_server.Messages.{what, is_exception}
use rp_t_minigames_server.Utils.HandlingResult.{HandlingResult}
use rp_t_minigames_server.Utils.TextProtocol.{TextProtocolParser, new_parser, get_parsed_word}
use rp_t_minigames_server.Core.Service.{ServiceEvent, prefix_with}

pub record RequestParser : Type 0 where
  pub parser : TextProtocolParser
  pub parsed_ruid : ℕ

-- The `catch` takes `std::invalid_argument` alone.
unfoldable pub parse_ruid : Text → Result ℕ
parse_ruid ruid_copy = elim (stoull ruid_copy) [
  | ok n ↦ ok n
  | err (invalid_argument m) ↦
      err (bad_service_request (text "Request UID must be an unsigned integer of 64 bits"))
  | err e ↦ err e
]

-- `ServiceRequestCommandParser`.
unfoldable pub new_request_parser : Text → Result RequestParser
unfolding parse_ruid
new_request_parser sr_command = bind (new_parser sr_command 3) (λ parser.
    bind (get_parsed_word 1 parser) (λ ruid_copy.
      bind (parse_ruid ruid_copy) (λ ruid. ok (record { parser = parser; parsed_ruid = ruid }))))

-- What `InvalidRequestFormat` says.
abbrev pub invalid_format : Text → Text → Error
invalid_format sr_command reason =
    bad_service_request (text "SR command \"" ++ sr_command ++ text "\" ill formed: " ++ reason)

abbrev pub not_found : Text → Error
not_found name = bad_service_request (text "Service with name \"" ++ name ++ text "\" not found")

-- The parsed request: its identifier, the service's name and the command.
pub record Request : Type 0 where
  pub request_uid : ℕ
  pub intended_service_name : Text
  pub command_data : Text

abbrev pub read_request : Text → RequestParser → Result Request
read_request sr_command p = bind (get_parsed_word 0 p.parser) (λ command_prefix.
    bind
      (check (text_eq command_prefix (text "REQUEST"))
        (invalid_format sr_command (text "Expected SER command prefix \"REQUEST\" for SR command")))
      (λ _. bind (get_parsed_word 2 p.parser) (λ name. ok (record {
        request_uid = p.parsed_ruid;
        intended_service_name = name;
        command_data = p.parser.unparsed_words;
      }))))

-- The `catch` of `NotEnoughWords`.
abbrev pub too_short : Text → Result Request → Result Request
too_short sr_command (ok r) = ok r
too_short sr_command (err (not_enough_words n expected)) =
    err (invalid_format sr_command (text "Expected SER command prefix and request service name"))
too_short sr_command (err e) = err e

unfoldable pub parse_service_request : Text → Result Request
unfolding new_request_parser
parse_service_request sr_command =
    too_short sr_command (bind (new_request_parser sr_command) (read_request sr_command))

pub record RunningService (W : Type 0) : Type 0 where
  pub name : Text
  pub handle : ℕ → Text → Action W HandlingResult
  pub next_event_id : W → Option ℕ
  pub poll : Action W ServiceEvent

abbrev pub response_prefix : ℕ → Text
response_prefix request_uid = text "RESPONSE" ++ text " " ++ to_string request_uid ++ text " "

-- The response to what the handler returned, or threw.
unfoldable pub respond : ℕ → Result HandlingResult → Result Text
unfolding is_exception
respond request_uid (ok r) = elim r.possible_error_message [
  | none ↦ ok (response_prefix request_uid ++ text "OK")
  | some m ↦ ok (response_prefix request_uid ++ text "KO " ++ m)
]
respond request_uid (err e) =
    if is_exception e then ok (response_prefix request_uid ++ text "KO " ++ what e) else err e

module _ {W : Type 0} where
  unfoldable pub find_service : Text → List (RunningService W) → Option (RunningService W)
  find_service name [] = none
  find_service name (s ∷ services) =
      if text_eq s.name name then some s else find_service name services

  -- The constructor's loop.
  unfoldable pub register :
      List (RunningService W) → List (RunningService W) → Result (List (RunningService W))
  register registered [] = ok registered
  register registered (s ∷ services) = elim (find_service s.name registered) [
    | some other ↦ err (service_name_already_registered s.name)
    | none ↦ register (registered ++ s ∷ []) services
  ]

  abbrev pub run_request : ℕ → Request → Option (RunningService W) → Action W Text
  run_request actor r none w = (err (not_found r.intended_service_name), w)
  run_request actor r (some s) w = (
    respond r.request_uid (s.handle actor r.command_data w).0,
    (s.handle actor r.command_data w).1,
  )

  unfoldable pub handle_service_request : List (RunningService W) → ℕ → Text → Action W Text
  unfolding parse_service_request find_service respond
  handle_service_request services actor service_request = do
    r ← lift (parse_service_request service_request)
    run_request actor r (find_service r.intended_service_name services)

  -- The loop that looks for the lowest event identifier, with what it has found so far.
  unfoldable pub latest_emitter :
      W → Option (RunningService W × ℕ) → List (RunningService W) → Option (RunningService W × ℕ)
  latest_emitter w found [] = found
  latest_emitter w found (s ∷ services) =
      latest_emitter w
        (elim (s.next_event_id w) [
          | none ↦ found
          | some id ↦ elim found [
            | none ↦ some (s, id)
            | some (t, lowest_event_id) ↦
                if ltb id lowest_event_id then some (s, id) else some (t, lowest_event_id)
          ]
        ])
        services

  abbrev pub poll_emitter : Option (RunningService W × ℕ) → Action W (Option ServiceEvent)
  poll_emitter none w = (ok none, w)
  poll_emitter (some (s, id)) w =
      (do
        next_event ← s.poll
        pure (some (prefix_with (text "EVENT" ++ text " " ++ s.name ++ text " ") next_event)))
        w

  unfoldable pub poll_service_event : List (RunningService W) → Action W (Option ServiceEvent)
  unfolding latest_emitter
  poll_service_event services w = poll_emitter (latest_emitter w none services) w
