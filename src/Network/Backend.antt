-- ===== src/Network/Backend.antt =====
-- rpt-network/src/NetworkBackend.cpp and MessagesQueueView.cpp with their headers. The three maps are association lists; where the source
-- iterates over one, the order is that of the list.
pub mod Registry
pub mod Actors
pub mod Delivery
pub mod Closing
pub mod Login
pub mod Sessions
pub mod Reached
use rp_t_minigames_server.Prelude.{
  ℕ, Bool, true, false, not, List, [], ◌∷◌, ◌++◌, map, Option, none, some, Text, text, text_eq, leb,
  ◌==◌, if◌then◌else◌, length, is_empty,
}
use rp_t_minigames_server.Outcome.{
  Result, ok, err, Error, bad_client_message, internal_error, invalid_argument, not_enough_words,
  unknown_client_token, unavailable_client_token, alive_client, unknown_actor_uid, no_more_message,
  assertion_failed, bind, check, Action, pure, throw, lift, gets, modify, guard, ◌>>=◌, ◌>>◌,
}
use rp_t_minigames_server.Numbers.{to_string, stoull}
use rp_t_minigames_server.Messages.{what, is_exception}
use rp_t_minigames_server.Maps.{find, insert, erase, adjust, has_key, at_key}
use rp_t_minigames_server.Utils.HandlingResult.{HandlingResult, handled}
use rp_t_minigames_server.Utils.TextProtocol.{new_parser, get_parsed_word}
use rp_t_minigames_server.Core.Service.{ServiceEvent, prefix_with}
use rp_t_minigames_server.Core.InputEvent.{
  InputEvent, none_event, service_request_event, timer_event, joined_event, left_event,
}

pub record ClientStatus : Type 0 where
  pub alive : Bool
  pub disconnection_reason : HandlingResult

pub record Actor : Type 0 where
  pub uid : ℕ
  pub name : Text

pub record Client : Type 0 where
  pub status : ClientStatus
  pub actor : Option Actor

pub record NetworkBackend : Type 0 where
  pub actors_limit : ℕ
  pub connected_clients : List (ℕ × Client)
  pub actors_registry : List (ℕ × ℕ)
  pub clients_remaining_messages : List (ℕ × List Text)
  pub input_events_queue : List InputEvent

unfoldable pub new_backend : ℕ → NetworkBackend
new_backend actors_limit = record {
  actors_limit = actors_limit;
  connected_clients = [];
  actors_registry = [];
  clients_remaining_messages = [];
  input_events_queue = [];
}

abbrev pub is_registered : ℕ → NetworkBackend → Bool
is_registered actor_uid b = has_key actor_uid b.actors_registry

abbrev pub push_input_event : InputEvent → Action NetworkBackend (Unit {0})
push_input_event input_event =
    modify λ b. record b { input_events_queue = b.input_events_queue ++ input_event ∷ [] }

abbrev pub polled : List InputEvent → NetworkBackend → Option InputEvent × NetworkBackend
polled [] b = (none, b)
polled (e ∷ queue) b = (some e, record b { input_events_queue = queue })

unfoldable pub poll_input_event : NetworkBackend → Option InputEvent × NetworkBackend
poll_input_event b = polled b.input_events_queue b

-- `.at(client_token).push(message)`.
unfoldable pub private_message : ℕ → Text → Action NetworkBackend (Unit {0})
private_message client_token new_message = do
  queue ← (λ b. (at_key client_token b.clients_remaining_messages, b))
  modify (λ b. record b {
    clients_remaining_messages =
        adjust client_token (λ q. q ++ new_message ∷ []) b.clients_remaining_messages;
  })

-- The targets in some order; each `.at` may throw, and then the later ones get nothing.
unfoldable pub target_message : List ℕ → Text → Action NetworkBackend (Unit {0})
unfolding private_message
target_message [] new_message b = (ok tt, b)
target_message (target_actor ∷ target_uids) new_message b =
    (do
      actor_owner ← (λ b. (at_key target_actor b.actors_registry, b))
      private_message actor_owner new_message
      target_message target_uids new_message)
      b

abbrev pub registry_uids : NetworkBackend → List ℕ
registry_uids b = map (λ (entry : ℕ × ℕ). entry.0) b.actors_registry

unfoldable pub broadcast_message : Text → Action NetworkBackend (Unit {0})
unfolding target_message
broadcast_message new_message b = target_message (registry_uids b) new_message b

-- The loop over the alive actors: neither the identifier nor the name may be taken.
unfoldable pub check_available : ℕ → Text → List (ℕ × Client) → Result (Unit {0})
check_available actor_uid name [] = ok tt
check_available actor_uid name ((token, client) ∷ clients) = elim client.actor [
  | none ↦ check_available actor_uid name clients
  | some a ↦
      if a.uid == actor_uid
      then err (invalid_argument (text "Actor UID " ++ to_string actor_uid ++ text " unavailable"))
      else if text_eq a.name name
      then err (invalid_argument (text "Actor name \"" ++ name ++ text "\" unavailable"))
      else check_available actor_uid name clients
]

abbrev pub known : ℕ → Option Client → Result Client
known client_token none = err (unknown_client_token client_token)
known client_token (some c) = ok c

abbrev pub known_client : ℕ → NetworkBackend → Result Client
known_client client_token b = known client_token (find client_token b.connected_clients)

unfoldable pub register_actor : ℕ → ℕ → Text → Action NetworkBackend (Unit {0})
unfolding check_available
register_actor client_token actor_uid name = do
  (λ b. (check_available actor_uid name b.connected_clients, b))
  client ← (λ b. (known_client client_token b, b))
  guard client.status.alive (
      invalid_argument
        (text "Client with token " ++ to_string client_token ++ text " is no longer alive"))
  modify (λ b. record b {
    connected_clients =
        adjust client_token
          (λ c. record c { actor = some (record { uid = actor_uid; name = name }) })
          b.connected_clients;
  })
  registered ← gets (is_registered actor_uid)
  modify (λ b. record b {
    actors_registry =
        if registered then b.actors_registry else insert actor_uid client_token b.actors_registry;
  })
  guard (not registered) assertion_failed

unfoldable pub unregister_actor : ℕ → Action NetworkBackend (Unit {0})
unregister_actor actor_uid = do
  owner ← (λ b. (at_key actor_uid b.actors_registry, b))
  client ← (λ b. (at_key owner b.connected_clients, b))
  modify (λ b. record b {
    connected_clients =
        adjust owner (λ c. record c { status = record (c.status) { alive = false }; actor = none })
          b.connected_clients;
  })
  modify (λ b. record b { actors_registry = erase actor_uid b.actors_registry })

unfoldable pub format_actors : List (ℕ × Client) → Text
format_actors [] = []
format_actors ((token, client) ∷ clients) = elim client.actor [
  | none ↦ format_actors clients
  | some a ↦ text " " ++ to_string a.uid ++ text " " ++ a.name ++ format_actors clients
]

unfoldable pub format_registration_message : NetworkBackend → Text
unfolding format_actors
format_registration_message b = text "REGISTRATION" ++ format_actors b.connected_clients

abbrev pub is_alive : ℕ → NetworkBackend → Result Bool
is_alive client_token b = bind (known_client client_token b) (λ c. ok c.status.alive)

unfoldable pub disconnection_reason_of : ℕ → NetworkBackend → Result HandlingResult
disconnection_reason_of client_token b = bind (known_client client_token b) (λ c.
    bind (check (not c.status.alive) (alive_client client_token))
      (λ _. ok c.status.disconnection_reason))

unfoldable pub reply_to : ℕ → Text → Action NetworkBackend (Unit {0})
unfolding private_message
reply_to sr_actor sr_response = do
  registered ← gets (is_registered sr_actor)
  guard registered (unknown_actor_uid sr_actor)
  owner_client ← (λ b. (at_key sr_actor b.actors_registry, b))
  private_message owner_client (text "SERVICE" ++ text " " ++ sr_response)

abbrev pub output_to : Option (List ℕ) → Text → Action NetworkBackend (Unit {0})
output_to none command = broadcast_message command
output_to (some uids) command = target_message uids command

unfoldable pub output_event : ServiceEvent → Action NetworkBackend (Unit {0})
unfolding broadcast_message target_message
output_event event =
    let rptl_encapsulated = prefix_with (text "SERVICE" ++ text " ") event in
    output_to rptl_encapsulated.event_targets rptl_encapsulated.command

-- `MessagesQueueView::next`, on a client's queue.
abbrev pub next_message : List Text → Result (Text × List Text)
next_message [] = err no_more_message
next_message (m ∷ queue) = ok (m, queue)
