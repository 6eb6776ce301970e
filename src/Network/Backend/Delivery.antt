-- ===== src/Network/Backend/Delivery.antt =====
-- Messages to actors who are registered reach the queues of their clients.
use rp_t_minigames_server.Prelude.{
  ℕ, ◌≡◌, refl, sym, ◌∙◌, ap, subst, ◌⊎◌, inl, inr, Bool-cases, Option-cases, List, [], ◌∷◌, ◌++◌,
  map, some, Text, ◌==◌, arith,
}
use rp_t_minigames_server.Outcome.{Result, ok, err, after, ◌>>◌}
use rp_t_minigames_server.Maps.{find, adjust}
use rp_t_minigames_server.Network.Backend.{
  NetworkBackend, private_message, target_message, broadcast_message, registry_uids,
}
use rp_t_minigames_server.Network.Backend.Registry.{Consistent, queues-Consistent}

-- A delivery changes the queues alone, and the maps still agree.
pub record Delivered (b b' : NetworkBackend) : Type 0 where
  pub clients : b'.connected_clients ≡ b.connected_clients
  pub registry : b'.actors_registry ≡ b.actors_registry
  pub consistent : Consistent b'

pub Delivered-trans : {a b c : NetworkBackend} → Delivered a b → Delivered b c → Delivered a c
Delivered-trans d e = record {
  clients = e.clients ∙ d.clients;
  registry = e.registry ∙ d.registry;
  consistent = e.consistent;
}

pub Delivered-refl : {b : NetworkBackend} → Consistent b → Delivered b b
Delivered-refl k = record { clients = refl; registry = refl; consistent = k }

abbrev queueing : ℕ → Text → NetworkBackend → NetworkBackend
queueing t m b = record b {
  clients_remaining_messages =
      adjust t (λ (q : List Text). q ++ m ∷ []) b.clients_remaining_messages;
}

pub private_message-Delivered :
    (t : ℕ) (m : Text) (b : NetworkBackend) → Consistent b → Delivered b (private_message t m b).1
unfolding private_message
private_message-Delivered t m b k = elim (Option-cases (find t b.clients_remaining_messages)) [
  | inl absent ↦ rw absent (Delivered-refl k)
  | inr (q, held) ↦ rw held record {
    clients = refl;
    registry = refl;
    consistent = queues-Consistent t (λ (q : List Text). q ++ m ∷ []) b k;
  }
]

pub private_message-ok :
    (t : ℕ) (m : Text) (b : NetworkBackend) {q : List Text}
    → find t b.clients_remaining_messages ≡ some q
    → (private_message t m b).0 ≡ ok tt
unfolding private_message
private_message-ok t m b held = rw held refl

abbrev pub AllRegistered : List ℕ → List (ℕ × ℕ) → Type 0
AllRegistered [] registry = Unit {0}
AllRegistered (uid ∷ uids) registry =
    ((t : ℕ) × (find uid registry ≡ some t)) × AllRegistered uids registry

AllRegistered-cons :
    (uids : List ℕ) (k v : ℕ) (m : List (ℕ × ℕ))
    → AllRegistered uids m
    → AllRegistered uids ((k, v) ∷ m)
unfolding find
AllRegistered-cons [] k v m a = tt
AllRegistered-cons (uid ∷ uids) k v m ((t, held), a) = (
  elim (Bool-cases (k == uid)) [ inl same ↦ (v, rw same refl) | inr apart ↦ (t, rw apart held) ],
  AllRegistered-cons uids k v m a,
)

keys-AllRegistered : (m : List (ℕ × ℕ)) → AllRegistered (map (λ (entry : ℕ × ℕ). entry.0) m) m
unfolding find
keys-AllRegistered [] = tt
keys-AllRegistered ((k, v) ∷ m) = (
  (v, ground arith),
  AllRegistered-cons (map (λ (entry : ℕ × ℕ). entry.0) m) k v m (keys-AllRegistered m),
)

-- A target's delivery, and the others'.
target-cases :
    (uid : ℕ) (uids : List ℕ) (m : Text) (b : NetworkBackend)
    → (target_message (uid ∷ uids) m b).1 ≡ b
      ⊎ ((t : ℕ) × (find uid b.actors_registry ≡ some t)
          × (target_message (uid ∷ uids) m b ≡ (private_message t m >> target_message uids m) b))
unfolding target_message
target-cases uid uids m b = elim (Option-cases (find uid b.actors_registry)) [
  | inl absent ↦ inl (rw absent refl)
  | inr (t, held) ↦ inr (t, held, rw held refl)
]

pub after-Delivered :
    (b : NetworkBackend) (x : Result (Unit {0}) × NetworkBackend)
    (f : NetworkBackend → Result (Unit {0}) × NetworkBackend)
    → Delivered b x.1
    → ((b' : NetworkBackend) → Consistent b' → Delivered b' (f b').1)
    → Delivered b (after x.0 (λ _. f x.1) x.1).1
after-Delivered b (ok u, b') f d k = Delivered-trans d (k b' d.consistent)
after-Delivered b (err e, b') f d k = d

pub target_message-Delivered :
    (uids : List ℕ) (m : Text) (b : NetworkBackend)
    → Consistent b
    → Delivered b (target_message uids m b).1
unfolding target_message
target_message-Delivered [] m b k = Delivered-refl k
target_message-Delivered (uid ∷ uids) m b k = elim (target-cases uid uids m b) [
  | inl same ↦ subst (Delivered b) (sym same) (Delivered-refl k)
  | inr (t, held, split) ↦
      subst (λ (x : Result (Unit {0}) × NetworkBackend). Delivered b x.1) (sym split)
        (after-Delivered b (private_message t m b) (target_message uids m)
          (private_message-Delivered t m b k) (target_message-Delivered uids m))
]

-- The queue of the client who owns an actor.
pub actor_queue :
    (uid t : ℕ) (b : NetworkBackend)
    → Consistent b
    → find uid b.actors_registry ≡ some t
    → (q : List Text) × (find t b.clients_remaining_messages ≡ some q)
actor_queue uid t b k held =
    let (c, a, there, acts, is, alive) = k.registered uid t held in k.queued t c there

target-registered :
    (uid t : ℕ) (uids : List ℕ) (m : Text) (b : NetworkBackend)
    → find uid b.actors_registry ≡ some t
    → target_message (uid ∷ uids) m b ≡ (private_message t m >> target_message uids m) b
unfolding target_message
target-registered uid t uids m b held = rw held refl

pub after-ok :
    {S : Type 0} (x : Result (Unit {0}) × S) (f : S → Result (Unit {0}) × S)
    → x.0 ≡ ok tt
    → (f x.1).0 ≡ ok tt
    → (after x.0 (λ (u : Unit {0}). f x.1) x.1).0 ≡ ok tt
after-ok (ok u, s) f h k = k
after-ok (err e, s) f h k = h

pub target_message-ok :
    (uids : List ℕ) (m : Text) (b : NetworkBackend)
    → Consistent b
    → AllRegistered uids b.actors_registry
    → (target_message uids m b).0 ≡ ok tt
target_message-ok [] m b k a = unfold target_message in refl
target_message-ok (uid ∷ uids) m b k ((t, held), a) =
    let (q, queued) = actor_queue uid t b k held in
    let d = private_message-Delivered t m b k in
    ap (λ (x : Result (Unit {0}) × NetworkBackend). x.0) (target-registered uid t uids m b held)
    ∙ after-ok (private_message t m b) (target_message uids m) (private_message-ok t m b queued) (
        target_message-ok uids m (private_message t m b).1 d.consistent
          (subst (AllRegistered uids) (sym d.registry) a))

pub broadcast_message-Delivered :
    (m : Text) (b : NetworkBackend)
    → Consistent b
    → ((broadcast_message m b).0 ≡ ok tt) × Delivered b (broadcast_message m b).1
unfolding broadcast_message
broadcast_message-Delivered m b k = (
  target_message-ok (registry_uids b) m b k (keys-AllRegistered b.actors_registry),
  target_message-Delivered (registry_uids b) m b k,
)
