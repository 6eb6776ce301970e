-- ===== src/Network/Backend/Login.antt =====
-- The registration of a new actor.
use rp_t_minigames_server.Prelude.{
  ℕ, ◌≡◌, refl, sym, ◌∙◌, ap, inl, inr, Bool, true, false, not, Bool-cases, Option-cases, List, [],
  ◌∷◌, Option, none, some, Text, ◌==◌, if◌then◌else◌, arith,
}
use rp_t_minigames_server.Outcome.{Result, ok, check, assertion_failed}
use rp_t_minigames_server.Outcome.Ends.{Ends, returns, Ends-lift, Ends-guard}
use rp_t_minigames_server.Maps.{find, insert}
use rp_t_minigames_server.Maps.Lookup.{same_value, unequal}
use rp_t_minigames_server.Network.Backend.{
  NetworkBackend, Client, Actor, register_actor, check_available, known,
}
use rp_t_minigames_server.Network.Backend.Registry.{Consistent}
use rp_t_minigames_server.Network.Backend.Actors.{logged_in}

available-rest :
    (uid t : ℕ) (name : Text) (c : Client) (clients : List (ℕ × Client))
    → check_available uid name ((t, c) ∷ clients) ≡ ok tt
    → check_available uid name clients ≡ ok tt
unfolding check_available
available-rest uid t name c clients h = ground (arith, h)

available-head :
    (uid t : ℕ) (name : Text) (c : Client) (clients : List (ℕ × Client)) (a : Actor)
    → check_available uid name ((t, c) ∷ clients) ≡ ok tt
    → c.actor ≡ some a
    → (a.uid == uid) ≡ false
unfolding check_available
available-head uid t name c clients a h acts = ground (arith, h, acts)

-- An identifier that the loop over the clients finds available is no client's.
available-differs :
    (uid u : ℕ) (name : Text) (clients : List (ℕ × Client)) {d : Client} {a : Actor}
    → check_available uid name clients ≡ ok tt
    → find u clients ≡ some d
    → d.actor ≡ some a
    → (a.uid == uid) ≡ false
unfolding check_available find
available-differs uid u name [] h held acts = cc
available-differs uid u name ((t, c) ∷ clients) {d} {a} h held acts = elim (Bool-cases (t == u)) [
  | inl same ↦
      let one : c ≡ d = same_value (rw same at held) in
      available-head uid t name c clients a h (ap (λ (x : Client). x.actor) one ∙ acts)
  | inr apart ↦
      available-differs uid u name clients (available-rest uid t name c clients h)
        (rw apart at held) acts
]

available-absent :
    (uid : ℕ) (name : Text) (b : NetworkBackend)
    → Consistent b
    → check_available uid name b.connected_clients ≡ ok tt
    → find uid b.actors_registry ≡ none
available-absent uid name b k h = elim (Option-cases (find uid b.actors_registry)) [
  | inl absent ↦ absent
  | inr (t, owns) ↦
      let (c, a, held, acts, is, alive) = k.registered uid t owns in
      absurd (unequal a.uid uid (available-differs uid t name b.connected_clients h held acts) is)
]

pub held_client : (t : ℕ) (o : Option Client) {d : Client} → known t o ≡ ok d → some d ≡ o
held_client t none h = cc
held_client t (some c) h = cc

-- The insertion into the registry, by what it holds under the identifier.
abbrev taken : Option ℕ → Bool
taken o = elim o [ none ↦ false | some v ↦ true ]

abbrev inserted : ℕ → ℕ → Text → NetworkBackend → Option ℕ → Result (Unit {0}) × NetworkBackend
inserted t uid name b o = (
  check (not (taken o)) assertion_failed,
  record (logged_in t uid name b) {
    actors_registry = if taken o then b.actors_registry else insert uid t b.actors_registry;
  },
)

-- The registration of an actor for a client without one throws and changes nothing, or returns with the
-- client's actor set and the registry's entry made: the assertion at its end never fails.
pub register_actor-Ends :
    (t uid : ℕ) (name : Text) (c : Client) (b : NetworkBackend)
    → Consistent b
    → find t b.connected_clients ≡ some c
    → Ends b
        (λ _ b'.
          (b' ≡ logged_in t uid name b)
          × (c.status.alive ≡ true)
          × (find uid b.actors_registry ≡ none))
        (register_actor t uid name b)
unfolding register_actor
register_actor-Ends t uid name c b k there =
    Ends-lift (check_available uid name b.connected_clients) _ b λ _ free.
      Ends-lift (known t (find t b.connected_clients)) _ b λ d found.
        Ends-guard d.status.alive _ _ b λ lives.
          let absent = available-absent uid name b k free in
          let same : d ≡ c =
            same_value (held_client t (find t b.connected_clients) found ∙ there) in
          returns tt (logged_in t uid name b) (ap (inserted t uid name b) absent)
            (refl, ap (λ (x : Client). x.status.alive) (sym same) ∙ lives, absent)
