-- ===== src/Network/Backend/Actors.antt =====
-- An actor comes into the registry and leaves it together with its client's record of it.
use rp_t_minigames_server.Prelude.{
  ℕ, ◌≡◌, refl, sym, ◌∙◌, ap, inl, inr, true, false, Bool-cases, none, some, Text, ◌==◌, ==→≡,
}
use rp_t_minigames_server.Outcome.{ok}
use rp_t_minigames_server.Maps.{find, insert, erase, adjust}
use rp_t_minigames_server.Maps.Lookup.{
  same_value, no_value, adjust-other, adjust-found, adjust-inv, erase-inv, erase-other, insert-inv,
  insert-other, insert-found, keys-differ, unequal, values-differ,
}
use rp_t_minigames_server.Network.Backend.{NetworkBackend, Client, Actor, unregister_actor}
use rp_t_minigames_server.Network.Backend.Registry.{Consistent, tokens-differ}

abbrev pub with_actor : ℕ → Text → Client → Client
with_actor uid name c = record c { actor = some (record { uid = uid; name = name }) }

abbrev pub logged_in : ℕ → ℕ → Text → NetworkBackend → NetworkBackend
logged_in t uid name b = record b {
  connected_clients = adjust t (with_actor uid name) b.connected_clients;
  actors_registry = insert uid t b.actors_registry;
}

pub logged_in-Consistent :
    (t uid : ℕ) (name : Text) (c : Client) (b : NetworkBackend)
    → find t b.connected_clients ≡ some c
    → c.actor ≡ none
    → c.status.alive ≡ true
    → find uid b.actors_registry ≡ none
    → Consistent b
    → Consistent (logged_in t uid name b)
logged_in-Consistent t uid name c b there idle lives absent k = record {
  registered = λ v u h. elim (insert-inv uid v t b.actors_registry h) [
    | inl (here, owner) ↦ (
      with_actor uid name c,
      record { uid = uid; name = name },
      ap (λ x. find x (adjust t (with_actor uid name) b.connected_clients)) owner
          ∙ adjust-found t (with_actor uid name) b.connected_clients there,
      refl,
      here,
      lives,
    )
    | inr (apart, old) ↦
        let (d, a, held, acts, is, alive) = k.registered v u old in
        (
          d,
          a,
          adjust-other t u (with_actor uid name) b.connected_clients
                (tokens-differ t u b.connected_clients there idle held acts)
              ∙ held,
          acts,
          is,
          alive,
        )
  ];
  owned = λ u d a h acts.
      let (v, old, new) = adjust-inv t u (with_actor uid name) b.connected_clients h in
      elim new [
        | inl (here, changed) ↦
            let named : record { uid = uid; name = name } ≡ a =
              same_value (sym (ap (λ (x : Client). x.actor) changed) ∙ acts) in
            ap (λ (x : Actor). find x.uid (insert uid t b.actors_registry)) (sym named)
            ∙ insert-found uid t b.actors_registry
            ∙ ap some here
        | inr (apart, kept) ↦
            let held = k.owned u v a old (sym (ap (λ (x : Client). x.actor) kept) ∙ acts) in
            insert-other uid a.uid t b.actors_registry
              (keys-differ uid a.uid b.actors_registry absent held)
            ∙ held
      ];
  queued = λ u d h.
      let (v, old, new) = adjust-inv t u (with_actor uid name) b.connected_clients h in
      k.queued u v old;
}

-- A client has one actor.
one_actor :
    (uid v t : ℕ) (b : NetworkBackend)
    → find uid b.actors_registry ≡ some t
    → find v b.actors_registry ≡ some t
    → Consistent b
    → uid ≡ v
one_actor uid v t b first second k =
    let (c, a, held, acts, is, alive) = k.registered uid t first in
    let (d, e, there, does, was, lives) = k.registered v t second in
    let client : c ≡ d = same_value (sym held ∙ there) in
    let actor : a ≡ e = same_value (sym acts ∙ ap (λ (x : Client). x.actor) client ∙ does) in
    sym is ∙ ap (λ (x : Actor). x.uid) actor ∙ was

abbrev pub without_actor : Client → Client
without_actor c = record c { status = record (c.status) { alive = false }; actor = none }

abbrev pub logged_off : ℕ → ℕ → NetworkBackend → NetworkBackend
logged_off t uid b = record b {
  connected_clients = adjust t without_actor b.connected_clients;
  actors_registry = erase uid b.actors_registry;
}

pub logged_off-Consistent :
    (t uid : ℕ) (b : NetworkBackend)
    → find uid b.actors_registry ≡ some t
    → Consistent b
    → Consistent (logged_off t uid b)
logged_off-Consistent t uid b owns k = record {
  registered = λ v u h.
      let (apart, old) = erase-inv uid v b.actors_registry h in
      let (d, a, held, acts, is, alive) = k.registered v u old in
      elim (Bool-cases (t == u)) [
        | inr other ↦
            (d, a, adjust-other t u without_actor b.connected_clients other ∙ held, acts, is, alive)
        | inl here ↦
            absurd (
              unequal uid v apart
                (one_actor uid v t b owns (old ∙ ap some (sym (==→≡ t u here))) k))
      ];
  owned = λ u d a h acts.
      let (v, old, new) = adjust-inv t u without_actor b.connected_clients h in
      elim new [
        | inl (here, changed) ↦
            absurd (no_value (ap (λ (x : Client). x.actor) (sym changed) ∙ acts))
        | inr (apart, kept) ↦
            let held = k.owned u v a old (sym (ap (λ (x : Client). x.actor) kept) ∙ acts) in
            erase-other uid a.uid b.actors_registry
              (values-differ uid a.uid b.actors_registry owns held apart)
            ∙ held
      ];
  queued = λ u d h.
      let (v, old, new) = adjust-inv t u without_actor b.connected_clients h in k.queued u v old;
}

-- Calls on the registry.
pub unregister_actor-returns :
    (uid t : ℕ) (b : NetworkBackend)
    → find uid b.actors_registry ≡ some t
    → Consistent b
    → unregister_actor uid b ≡ (ok tt, logged_off t uid b)
unfolding unregister_actor
unregister_actor-returns uid t b owns k =
    let (c, a, held, acts, is, alive) = k.registered uid t owns in rw (owns, held) refl
