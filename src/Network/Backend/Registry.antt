-- ===== src/Network/Backend/Registry.antt =====
-- The three maps of the backend agree, and every change of one of them keeps it so.
use rp_t_minigames_server.Prelude.{
  ℕ, ◌≡◌, sym, ◌∙◌, ap, ◌⊎◌, inl, inr, true, false, Bool-cases, List, [], none, some, Text, ◌==◌,
  ==→≡,
}
use rp_t_minigames_server.Maps.{find, insert, erase, adjust}
use rp_t_minigames_server.Maps.Lookup.{
  same_value, no_value, adjust-other, adjust-found, adjust-inv, adjust-held, erase-inv, erase-other,
  insert-inv, insert-other, insert-found, keys-differ,
}
use rp_t_minigames_server.Network.Backend.{NetworkBackend, Client, Actor, new_backend}
use rp_t_minigames_server.Network.Pipelines.{fresh_client}

-- An actor of the registry is that of a client who is alive, an actor of a client is in the registry, for
-- this client, and every client has a queue of messages.
pub record Consistent (b : NetworkBackend) : Type 0 where
  pub registered :
      (uid t : ℕ)
      → find uid b.actors_registry ≡ some t
      → (c : Client) × (a : Actor) × (find t b.connected_clients ≡ some c)
        × (c.actor ≡ some a)
        × (a.uid ≡ uid)
        × (c.status.alive ≡ true)
  pub owned :
      (t : ℕ) (c : Client) (a : Actor)
      → find t b.connected_clients ≡ some c
      → c.actor ≡ some a
      → find a.uid b.actors_registry ≡ some t
  pub queued :
      (t : ℕ) (c : Client)
      → find t b.connected_clients ≡ some c
      → (q : List Text) × (find t b.clients_remaining_messages ≡ some q)

pub new_backend-Consistent : (limit : ℕ) → Consistent (new_backend limit)
unfolding new_backend find
new_backend-Consistent limit = record {
  registered = λ uid t h. absurd (no_value h);
  owned = λ t c a h e. absurd (no_value h);
  queued = λ t c h. absurd (no_value h);
}

-- A client without an actor and one with an actor have different tokens.
pub tokens-differ :
    (t u : ℕ) (clients : List (ℕ × Client)) {c d : Client} {a : Actor}
    → find t clients ≡ some c
    → c.actor ≡ none
    → find u clients ≡ some d
    → d.actor ≡ some a
    → (t == u) ≡ false
tokens-differ t u clients {c} {d} held idle there acts = elim (Bool-cases (t == u)) [
  | inr apart ↦ apart
  | inl same ↦
      let one : c ≡ d = same_value (sym held ∙ ap (λ x. find x clients) (==→≡ t u same) ∙ there) in
      absurd (no_value (sym idle ∙ ap (λ (x : Client). x.actor) one ∙ acts))
]

-- The queues change, each client keeps one.
pub queues-Consistent :
    (t : ℕ) (f : List Text → List Text) (b : NetworkBackend)
    → Consistent b
    → Consistent (record b { clients_remaining_messages = adjust t f b.clients_remaining_messages })
queues-Consistent t f b k = record {
  registered = k.registered;
  owned = k.owned;
  queued = λ u c h.
      let (q, held) = k.queued u c h in adjust-held t u f b.clients_remaining_messages held;
}

-- A client's status changes; a client with an actor stays alive.
pub status-Consistent :
    (t : ℕ) (g : Client → Client) (b : NetworkBackend)
    → ((c : Client) → (g c).actor ≡ c.actor)
    → ((c : Client)
        → find t b.connected_clients ≡ some c
        → (c.actor ≡ none) ⊎ ((g c).status.alive ≡ c.status.alive))
    → Consistent b
    → Consistent (record b { connected_clients = adjust t g b.connected_clients })
status-Consistent t g b same stays k = record {
  registered = λ uid u h.
      let (c, a, held, acts, is, alive) = k.registered uid u h in
      elim (Bool-cases (t == u)) [
        | inr apart ↦ (c, a, adjust-other t u g b.connected_clients apart ∙ held, acts, is, alive)
        | inl here ↦
            let at_t : find t b.connected_clients ≡ some c =
              ap (λ x. find x b.connected_clients) (==→≡ t u here) ∙ held in
            elim (stays c at_t) [
              | inl idle ↦ absurd (no_value (sym idle ∙ acts))
              | inr lives ↦ (
                g c,
                a,
                sym (ap (λ x. find x (adjust t g b.connected_clients)) (==→≡ t u here))
                    ∙ adjust-found t g b.connected_clients at_t,
                same c ∙ acts,
                is,
                lives ∙ alive,
              )
            ]
      ];
  owned = λ u c a h acts.
      let (v, old, new) = adjust-inv t u g b.connected_clients h in
      elim new [
        | inl (here, changed) ↦
            k.owned u v a old (sym (same v) ∙ sym (ap (λ (x : Client). x.actor) changed) ∙ acts)
        | inr (apart, kept) ↦ k.owned u v a old (sym (ap (λ (x : Client). x.actor) kept) ∙ acts)
      ];
  queued = λ u c h. let (v, old, new) = adjust-inv t u g b.connected_clients h in k.queued u v old;
}

-- A new client.
pub insert-Consistent :
    (t : ℕ) (b : NetworkBackend)
    → find t b.connected_clients ≡ none
    → Consistent b
    → Consistent (record b {
      connected_clients = insert t fresh_client b.connected_clients;
      clients_remaining_messages = insert t [] b.clients_remaining_messages;
    })
insert-Consistent t b absent k = record {
  registered = λ uid u h.
      let (c, a, held, acts, is, alive) = k.registered uid u h in
      (
        c,
        a,
        insert-other t u fresh_client b.connected_clients
              (keys-differ t u b.connected_clients absent held)
            ∙ held,
        acts,
        is,
        alive,
      );
  owned = λ u c a h acts. elim (insert-inv t u fresh_client b.connected_clients h) [
    | inl (here, fresh) ↦ absurd (no_value (ap (λ (x : Client). x.actor) (sym fresh) ∙ acts))
    | inr (apart, old) ↦ k.owned u c a old acts
  ];
  queued = λ u c h. elim (insert-inv t u fresh_client b.connected_clients h) [
    | inl (here, fresh) ↦ (
      [],
      ap (λ x. find x (insert t [] b.clients_remaining_messages)) (sym here)
          ∙ insert-found t [] b.clients_remaining_messages,
    )
    | inr (apart, old) ↦
        let (q, held) = k.queued u c old in
        (q, insert-other t u [] b.clients_remaining_messages apart ∙ held)
  ];
}

-- A client without an actor is removed.
pub erase-Consistent :
    (t : ℕ) (c : Client) (b : NetworkBackend)
    → find t b.connected_clients ≡ some c
    → c.actor ≡ none
    → Consistent b
    → Consistent (record b {
      connected_clients = erase t b.connected_clients;
      clients_remaining_messages = erase t b.clients_remaining_messages;
    })
erase-Consistent t c b there idle k = record {
  registered = λ uid u h.
      let (d, a, held, acts, is, alive) = k.registered uid u h in
      (
        d,
        a,
        erase-other t u b.connected_clients
              (tokens-differ t u b.connected_clients there idle held acts)
            ∙ held,
        acts,
        is,
        alive,
      );
  owned = λ u d a h acts.
      let (apart, old) = erase-inv t u b.connected_clients h in k.owned u d a old acts;
  queued = λ u d h.
      let (apart, old) = erase-inv t u b.connected_clients h in
      let (q, held) = k.queued u d old in
      (q, erase-other t u b.clients_remaining_messages apart ∙ held);
}
