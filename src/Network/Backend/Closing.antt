-- ===== src/Network/Backend/Closing.antt =====
-- The end of an actor's pipeline and of a client's connection.
use rp_t_minigames_server.Prelude.{
  ℕ, ◌≡◌, refl, sym, ◌∙◌, ap, subst, inl, inr, false, Option-cases, List, [], ◌∷◌, ◌++◌, Option,
  none, some, Text,
}
use rp_t_minigames_server.Outcome.{Result, ok, err, after, ◌>>◌}
use rp_t_minigames_server.Utils.HandlingResult.{HandlingResult}
use rp_t_minigames_server.Maps.{find, adjust, erase, find-erase}
use rp_t_minigames_server.Maps.Lookup.{adjust-found, ==_self, same_value}
use rp_t_minigames_server.Core.InputEvent.{InputEvent, left_event}
use rp_t_minigames_server.Network.Backend.{
  NetworkBackend, Client, Actor, private_message, broadcast_message, unregister_actor, known,
}
use rp_t_minigames_server.Network.Pipelines.{
  sync_closed, close_pipeline_with, kill_client, kill_actor, interrupt_message, logged_out,
}
use rp_t_minigames_server.Network.Backend.Registry.{Consistent, status-Consistent}
use rp_t_minigames_server.Network.Backend.Actors.{
  logged_off, logged_off-Consistent, unregister_actor-returns, without_actor,
}
use rp_t_minigames_server.Network.Backend.Delivery.{
  Delivered, private_message-Delivered, private_message-ok, broadcast_message-Delivered, after-ok,
  after-Delivered,
}

abbrev pub with_event : InputEvent → NetworkBackend → NetworkBackend
with_event e b = record b { input_events_queue = b.input_events_queue ++ e ∷ [] }

pub with_event-Consistent :
    (e : InputEvent) (b : NetworkBackend) → Consistent b → Consistent (with_event e b)
with_event-Consistent e b k = record {
  registered = k.registered;
  owned = k.owned;
  queued = k.queued;
}

abbrev with_reason : HandlingResult → Client → Client
with_reason r c = record c { status = record (c.status) { disconnection_reason = r } }

abbrev set_reason : ℕ → HandlingResult → NetworkBackend → NetworkBackend
set_reason t r b = record b { connected_clients = adjust t (with_reason r) b.connected_clients }

set_reason-Consistent :
    (t : ℕ) (r : HandlingResult) (b : NetworkBackend) → Consistent b → Consistent (set_reason t r b)
set_reason-Consistent t r b k =
    status-Consistent t (with_reason r) b (λ c. refl) (λ c h. inr refl) k

-- A client whose connection is over for the reason given.
pub record Dead (t : ℕ) (r : HandlingResult) (b : NetworkBackend) : Type 0 where
  pub client : Client
  pub held : find t b.connected_clients ≡ some client
  pub not_alive : client.status.alive ≡ false
  pub reason : client.status.disconnection_reason ≡ r
  pub no_actor : client.actor ≡ none

-- The messages of `sync_closed`, and its last write.
closing_messages :
    (actor t : ℕ) (r : HandlingResult) → NetworkBackend → Result (Unit {0}) × NetworkBackend
closing_messages actor t r =
    private_message t (interrupt_message r) >> broadcast_message (logged_out actor)

closing_messages-Delivered :
    (actor t : ℕ) (r : HandlingResult) (b : NetworkBackend) {q : List Text}
    → Consistent b
    → find t b.clients_remaining_messages ≡ some q
    → ((closing_messages actor t r b).0 ≡ ok tt) × Delivered b (closing_messages actor t r b).1
unfolding closing_messages
closing_messages-Delivered actor t r b k held =
    let told = private_message t (interrupt_message r) b in
    let d = private_message-Delivered t (interrupt_message r) b k in
    let (all, delivered) = broadcast_message-Delivered (logged_out actor) told.1 d.consistent in
    (
      after-ok told (broadcast_message (logged_out actor))
          (private_message-ok t (interrupt_message r) b held) all,
      after-Delivered b told (broadcast_message (logged_out actor)) d
          (λ b' k'. (broadcast_message-Delivered (logged_out actor) b' k').1),
    )

written :
    (g : NetworkBackend → NetworkBackend) (x : Result (Unit {0}) × NetworkBackend)
    → x.0 ≡ ok tt
    → after x.0 (λ (u : Unit {0}). (ok tt, g x.1)) x.1 ≡ (ok tt, g x.1)
written g (ok u, b) h = refl
written g (err e, b) h = cc

sync_closed-returns :
    (actor t : ℕ) (r : HandlingResult) (b : NetworkBackend) {q : List Text}
    → Consistent b
    → find t b.clients_remaining_messages ≡ some q
    → sync_closed actor t r b ≡ (ok tt, set_reason t r (closing_messages actor t r b).1)
unfolding sync_closed closing_messages
sync_closed-returns actor t r b k held =
    let (all, delivered) = closing_messages-Delivered actor t r b k held in
    regroup (private_message t (interrupt_message r) b)
    ∙ written (set_reason t r) (closing_messages actor t r b) all
  where
    regroup :
        (x : Result (Unit {0}) × NetworkBackend)
        → after x.0
            (λ (u : Unit {0}).
              after
                (broadcast_message (logged_out actor) x.1).0
                (λ (v : Unit {0}).
                  (ok tt, set_reason t r (broadcast_message (logged_out actor) x.1).1))
                (broadcast_message (logged_out actor) x.1).1)
            x.1
          ≡ after
              (after x.0 (λ (u : Unit {0}). broadcast_message (logged_out actor) x.1) x.1).0
              (λ (v : Unit {0}). (
                ok tt,
                set_reason t r
                    (after x.0 (λ (u : Unit {0}). broadcast_message (logged_out actor) x.1) x.1).1,
              ))
              (after x.0 (λ (u : Unit {0}). broadcast_message (logged_out actor) x.1) x.1).1
    regroup (ok u, b) = refl
    regroup (err e, b) = refl

close_pipeline-steps :
    (actor t : ℕ) (r : HandlingResult) (b : NetworkBackend)
    → find actor b.actors_registry ≡ some t
    → close_pipeline_with actor r b
      ≡ (unregister_actor actor >> sync_closed actor t r) (with_event (left_event actor r) b)
unfolding close_pipeline_with find adjust erase
close_pipeline-steps actor t r b owns = rw owns refl

-- What closing the pipeline of an actor leaves.
pub record Closed (actor t : ℕ) (r : HandlingResult) (x : Result (Unit {0}) × NetworkBackend)
    : Type 0 where
  pub returned : x.0 ≡ ok tt
  pub unregistered : find actor x.1.actors_registry ≡ none
  pub dead : Dead t r x.1
  pub consistent : Consistent x.1

erased : (k : ℕ) (m : List (ℕ × ℕ)) → find k (erase k m) ≡ none
erased k m = find-erase k k m ∙ rw (==_self k) refl

-- In a backend whose maps agree, closing the pipeline of a registered actor returns, whatever the reason.
-- The actor is then out of the registry, and the client who owned it has no actor, is not alive and keeps
-- the reason. The maps still agree.
pub close_pipeline_with-Closed :
    (actor t : ℕ) (r : HandlingResult) (b : NetworkBackend)
    → Consistent b
    → find actor b.actors_registry ≡ some t
    → Closed actor t r (close_pipeline_with actor r b)
close_pipeline_with-Closed actor t r b k owns =
    let b0 = with_event (left_event actor r) b in
    let k0 = with_event-Consistent (left_event actor r) b k in
    let b1 = logged_off t actor b0 in
    let k1 = logged_off-Consistent t actor b0 owns k0 in
    let (c, a, there, acts, is, alive) = k.registered actor t owns in
    let gone : find t b1.connected_clients ≡ some (without_actor c) =
      adjust-found t without_actor b.connected_clients there in
    let (q, queued) = k1.queued t (without_actor c) gone in
    let (sent, d) = closing_messages-Delivered actor t r b1 k1 queued in
    let b2 = (closing_messages actor t r b1).1 in
    let steps : close_pipeline_with actor r b ≡ (ok tt, set_reason t r b2) =
      close_pipeline-steps actor t r b owns
      ∙ ap
          (λ (x : Result (Unit {0}) × NetworkBackend).
            after x.0 (λ (u : Unit {0}). sync_closed actor t r x.1) x.1)
          (unregister_actor-returns actor t b0 owns k0)
      ∙ sync_closed-returns actor t r b1 k1 queued in
    subst (Closed actor t r) (sym steps) record {
      returned = refl;
      unregistered = ap (find actor) d.registry ∙ erased actor b.actors_registry;
      dead = record {
        client = with_reason r (without_actor c);
        held = adjust-found t (with_reason r) b2.connected_clients (ap (find t) d.clients ∙ gone);
        not_alive = refl;
        reason = refl;
        no_actor = refl;
      };
      consistent = set_reason-Consistent t r b2 d.consistent;
    }

abbrev disconnected : HandlingResult → Client → Client
disconnected r c = record c { status = record { alive = false; disconnection_reason = r } }

abbrev with_dead : ℕ → HandlingResult → NetworkBackend → NetworkBackend
with_dead t r b = record b { connected_clients = adjust t (disconnected r) b.connected_clients }

-- What a kill does besides, by the actor of the client. NetworkBackend.hpp says that the reason is
-- ignored for a client without an actor; the code keeps it in the status.
abbrev pub Ousted :
    ℕ → HandlingResult → NetworkBackend → Option Actor → Result (Unit {0}) × NetworkBackend → Type 0
Ousted t r b none x =
    (x.1.actors_registry ≡ b.actors_registry)
    × (x.1.clients_remaining_messages ≡ b.clients_remaining_messages)
    × (x.1.input_events_queue ≡ b.input_events_queue)
Ousted t r b (some a) x = find a.uid x.1.actors_registry ≡ none

pub record Killed (t : ℕ) (r : HandlingResult) (b : NetworkBackend) (o : Option Actor)
    (x : Result (Unit {0}) × NetworkBackend) : Type 0 where
  pub returned : x.0 ≡ ok tt
  pub dead : Dead t r x.1
  pub ousted : Ousted t r b o x
  pub consistent : Consistent x.1

kill_client-steps :
    (t : ℕ) (r : HandlingResult) (b : NetworkBackend) (c : Client) (o : Option Actor)
    → find t b.connected_clients ≡ some c
    → c.actor ≡ o
    → kill_client t r b ≡ kill_actor o t r b
unfolding kill_client
kill_client-steps t r b c o there e =
    ap (λ (d : Option Client). after (known t d) (λ (x : Client). kill_actor x.actor t r b) b) there
    ∙ ap (λ x. kill_actor x t r b) e

pub kill_client-Killed :
    (t : ℕ) (r : HandlingResult) (b : NetworkBackend) (c : Client)
    → Consistent b
    → find t b.connected_clients ≡ some c
    → Killed t r b c.actor (kill_client t r b)
kill_client-Killed t r b c k there = elim (Option-cases c.actor) [
  | inl idle ↦ rw idle (
      subst (Killed t r b none) (sym (kill_client-steps t r b c none there idle)) record {
        returned = refl;
        dead = record {
          client = disconnected r c;
          held = adjust-found t (disconnected r) b.connected_clients there;
          not_alive = refl;
          reason = refl;
          no_actor = idle;
        };
        ousted = (refl, refl, refl);
        consistent =
            status-Consistent t (disconnected r) b (λ d. refl)
              (λ d h. inl (ap (λ (x : Client). x.actor) (same_value (sym h ∙ there)) ∙ idle)) k;
      })
  | inr (a, acts) ↦
      let closed = close_pipeline_with-Closed a.uid t r b k (k.owned t c a there acts) in
      rw acts (
        subst (Killed t r b (some a)) (sym (kill_client-steps t r b c (some a) there acts)) record {
          returned = closed.returned;
          dead = closed.dead;
          ousted = closed.unregistered;
          consistent = closed.consistent;
        })
]
