-- ===== src/Network/Backend/Sessions.antt =====
-- Every call on the backend leaves its three maps in agreement.
use rp_t_minigames_server.Prelude.{
  ℕ, ◌≡◌, refl, sym, ap, subst, inl, inr, not, Bool-cases, List, Option, none, some, Text, text,
  text_eq, is_empty, ◌++◌, length, leb,
}
use rp_t_minigames_server.Outcome.{
  Result, ok, err, after, Action, check, unknown_actor_uid, assertion_failed, pure, ◌>>=◌,
}
use rp_t_minigames_server.Outcome.Ends.{Ends-state}
use rp_t_minigames_server.Maps.{find, found, at_key}
use rp_t_minigames_server.Core.Service.{ServiceEvent}
use rp_t_minigames_server.Numbers.{to_string}
use rp_t_minigames_server.Utils.TextProtocol.{new_parser}
use rp_t_minigames_server.Core.InputEvent.{none_event}
use rp_t_minigames_server.Network.Commands.{parse_handshake, parse_rptl, too_many_arguments}
use rp_t_minigames_server.Network.Backend.{
  NetworkBackend, Client, Actor, register_actor, private_message, target_message, broadcast_message,
  unregister_actor, reply_to, output_event, is_registered, format_registration_message, output_to,
}
use rp_t_minigames_server.Network.Pipelines.{logged_out}
use rp_t_minigames_server.Network.Handlers.{
  handle_message, handle_by, handle_from_unregistered, handle_from_actor, handle_handshake,
  handle_checkout, handle_logout, dispatch_unregistered, dispatch_registered, register_new,
  registration_failed, service_request,
}
use rp_t_minigames_server.Network.Backend.Registry.{Consistent}
use rp_t_minigames_server.Network.Backend.Actors.{logged_in-Consistent, logged_off-Consistent}
use rp_t_minigames_server.Network.Backend.Delivery.{
  private_message-Delivered, target_message-Delivered, broadcast_message-Delivered,
}
use rp_t_minigames_server.Network.Backend.Closing.{}
use rp_t_minigames_server.Network.Backend.Login.{register_actor-Ends}

-- A call that leaves the maps in agreement.
abbrev pub Steady : {A : Type 0} → Action NetworkBackend A → Type 0
Steady act = (b : NetworkBackend) → Consistent b → Consistent (act b).1

pub Steady-step :
    {A B : Type 0} (x : Result A × NetworkBackend) (f : A → Result B × NetworkBackend)
    → Consistent x.1
    → ((a : A) → x.0 ≡ ok a → Consistent (f a).1)
    → Consistent (after x.0 f x.1).1
Steady-step (ok a, b) f k s = s a refl
Steady-step (err e, b) f k s = k

then-Steady :
    {A B : Type 0} (act : Action NetworkBackend A) (f : A → Action NetworkBackend B)
    → Steady act
    → ((a : A) → Steady (f a))
    → Steady (act >>= f)
then-Steady act f h s b k = Steady-step (act b) _ (h b k) λ a _. s a (act b).1 (h b k)

private-Steady : (t : ℕ) (m : Text) → Steady (private_message t m)
private-Steady t m b k = (private_message-Delivered t m b k).consistent

target-Steady : (uids : List ℕ) (m : Text) → Steady (target_message uids m)
target-Steady uids m b k = (target_message-Delivered uids m b k).consistent

broadcast-Steady : (m : Text) → Steady (broadcast_message m)
broadcast-Steady m b k = (broadcast_message-Delivered m b k).1.consistent

found-held : {V : Type 0} (o : Option V) {v : V} → found o ≡ ok v → o ≡ some v
found-held none h = cc
found-held (some v) h = ap some (same_ok h)
  where
    same_ok : {A : Type 0} {a b : A} → ok a ≡ ok b → a ≡ b
    same_ok e = cc

unregister-Steady : (uid : ℕ) → Steady (unregister_actor uid)
unfolding unregister_actor
unregister-Steady uid b k =
    Steady-step (at_key uid b.actors_registry, b) _ k
      λ t owns.
        Steady-step (at_key t b.connected_clients, b) _ k
          λ c there. logged_off-Consistent t uid b (found-held (find uid b.actors_registry) owns) k

pub reply_to-Steady : (actor : ℕ) (response : Text) → Steady (reply_to actor response)
unfolding reply_to
reply_to-Steady actor response b k =
    Steady-step (check (is_registered actor b) (unknown_actor_uid actor), b) _ k
      λ _ _. Steady-step (at_key actor b.actors_registry, b) _ k λ t _. private-Steady t _ b k

output_to-Steady : (targets : Option (List ℕ)) (command : Text) → Steady (output_to targets command)
output_to-Steady none command b k = broadcast-Steady command b k
output_to-Steady (some uids) command b k = target-Steady uids command b k

pub output_event-Steady : (event : ServiceEvent) → Steady (output_event event)
unfolding output_event
output_event-Steady event b k = output_to-Steady event.event_targets _ b k

-- Logging out, and the other requests of an actor.
handle_logout-Steady : (actor : ℕ) (arguments : Text) → Steady (handle_logout actor arguments)
unfolding handle_logout
handle_logout-Steady actor arguments b k =
    let b1 = (unregister_actor actor b).1 in
    let k1 = unregister-Steady actor b k in
    Steady-step (check (is_empty arguments) (too_many_arguments (text "LOGOUT")), b) _ k
      λ _ _.
        Steady-step (at_key actor b.actors_registry, b) _ k
          λ t _.
            let b2 = (private_message t (text "INTERRUPT") b1).1 in
            let k2 = private-Steady t (text "INTERRUPT") b1 k1 in
            let k3 = broadcast-Steady (logged_out actor) b2 k2 in
            Steady-step (unregister_actor actor b) _ k1 λ _ _.
              Steady-step (private_message t (text "INTERRUPT") b1) _ k2
                λ _ _. Steady-step (broadcast_message (logged_out actor) b2) _ k3 λ _ _. k3

handle_checkout-Steady : (t : ℕ) (arguments : Text) → Steady (handle_checkout t arguments)
unfolding handle_checkout
handle_checkout-Steady t arguments b k =
    Steady-step (check (is_empty arguments) _, b) _ k
      λ _ _.
        then-Steady (private_message t _) (λ _. pure (none_event 0)) (private-Steady t _)
          (λ _ d h. h) b k

service_request-Steady : (actor : ℕ) (arguments : Text) → Steady (service_request actor arguments)
service_request-Steady actor arguments b k = Steady-step (new_parser arguments 0, b) _ k λ _ _. k

dispatch_registered-Steady :
    (actor : ℕ) (command : Text × Text) → Steady (dispatch_registered actor command)
dispatch_registered-Steady actor (invoked, arguments) b k =
    elim (Bool-cases (text_eq invoked (text "SERVICE"))) [
      | inl service ↦ rw service (service_request-Steady actor arguments b k)
      | inr other ↦ elim (Bool-cases (text_eq invoked (text "LOGOUT"))) [
        | inl logout ↦ rw (other, logout) (handle_logout-Steady actor arguments b k)
        | inr unknown ↦ rw (other, unknown) k
      ]
    ]

handle_from_actor-Steady : (actor : ℕ) (message : Text) → Steady (handle_from_actor actor message)
unfolding handle_from_actor
handle_from_actor-Steady actor message b k =
    Steady-step (parse_rptl message, b) _ k
      λ command _. dispatch_registered-Steady actor command b k

-- A handshake of a client without an actor.
register_new-Consistent :
    (t uid : ℕ) (name : Text) (c : Client) (b : NetworkBackend)
    → Consistent b
    → find t b.connected_clients ≡ some c
    → c.actor ≡ none
    → Consistent (register_new t uid name b).1
unfolding register_new
register_new-Consistent t uid name c b k there idle =
    let registered = register_actor-Ends t uid name c b k there in
    let k1 : Consistent (register_actor t uid name b).1 =
      Ends-state Consistent b (register_actor t uid name b) registered k (λ _ b' q.
        subst Consistent (sym q.0) (logged_in-Consistent t uid name c b there idle q.1 q.2 k)) in
    let b1 = (register_actor t uid name b).1 in
    Steady-step (register_actor t uid name b) _ k1 λ _ _.
      Steady-step (check (is_registered uid b1) assertion_failed, b1) _ k1
        λ _ _.
          let k2 = private-Steady t (format_registration_message b1) b1 k1 in
          Steady-step (private_message t (format_registration_message b1) b1) _ k2 λ _ _.
            broadcast-Steady (text "LOGGED_IN" ++ text " " ++ to_string uid ++ text " " ++ name)
              (private_message t (format_registration_message b1) b1).1 k2

registration_failed-state :
    {A : Type 0} (uid : ℕ) (x : Result A × NetworkBackend)
    → Consistent x.1
    → Consistent (registration_failed uid x).1
registration_failed-state uid (ok a, b) k = k
registration_failed-state uid (err e, b) k = k

module _ (t : ℕ) (c : Client) (b : NetworkBackend) (k : Consistent b)
    (there : find t b.connected_clients ≡ some c) (idle : c.actor ≡ none) where
  handle_handshake-Consistent : (arguments : Text) → Consistent (handle_handshake t arguments b).1
  unfolding handle_handshake
  handle_handshake-Consistent arguments =
      Steady-step (parse_handshake arguments, b) _ k
        λ (handshake : ℕ × Text) _.
          Steady-step (check (not (leb b.actors_limit (length b.actors_registry))) _, b) _ k
            λ _ _.
              Steady-step (check (not (is_registered handshake.0 b)) _, b) _ k
                λ _ _.
                  Steady-step
                    (registration_failed handshake.0 (register_new t handshake.0 handshake.1 b)) _
                    (registration_failed-state handshake.0
                      (register_new t handshake.0 handshake.1 b)
                      (register_new-Consistent t handshake.0 handshake.1 c b k there idle))
                    λ _ _.
                      registration_failed-state handshake.0
                        (register_new t handshake.0 handshake.1 b)
                        (register_new-Consistent t handshake.0 handshake.1 c b k there idle)

  dispatch_unregistered-Consistent :
      (command : Text × Text) → Consistent (dispatch_unregistered t command b).1
  dispatch_unregistered-Consistent (invoked, arguments) =
      elim (Bool-cases (text_eq invoked (text "CHECKOUT"))) [
        | inl checkout ↦ rw checkout (handle_checkout-Steady t arguments b k)
        | inr other ↦ elim (Bool-cases (text_eq invoked (text "LOGIN"))) [
          | inl login ↦ rw (other, login) (handle_handshake-Consistent arguments)
          | inr unknown ↦ rw (other, unknown) k
        ]
      ]

  handle_from_unregistered-Consistent :
      (message : Text) → Consistent (handle_from_unregistered t message b).1
  unfolding handle_from_unregistered
  handle_from_unregistered-Consistent message =
      Steady-step (parse_rptl message, b) _ k λ command _. dispatch_unregistered-Consistent command

handle_by-Consistent :
    (t : ℕ) (message : Text) (c : Client) (o : Option Actor) (b : NetworkBackend)
    → Consistent b
    → find t b.connected_clients ≡ some c
    → c.actor ≡ o
    → Consistent (handle_by o t message b).1
handle_by-Consistent t message c none b k there idle =
    handle_from_unregistered-Consistent t c b k there idle message
handle_by-Consistent t message c (some a) b k there acts =
    handle_from_actor-Steady a.uid message b k

pub handle_message-Steady : (t : ℕ) (message : Text) → Steady (handle_message t message)
unfolding handle_message
handle_message-Steady t message b k =
    Steady-step (at_key t b.connected_clients, b) _ k
      λ c there.
        handle_by-Consistent t message c c.actor b k (found-held (find t b.connected_clients) there)
          refl
