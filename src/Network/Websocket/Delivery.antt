-- ===== src/Network/Websocket/Delivery.antt =====
-- What the synchronization, a completed write and a new message do to the messages for one client.
use rp_t_minigames_server.Prelude.{
  ℕ, ◌≡◌, refl, sym, ◌∙◌, ap, ◌⊎◌, inl, inr, true, Bool-cases, Option-cases, List, [], ◌∷◌, ◌++◌,
  map, Option, none, some, Text, text, ◌==◌, ==→≡, if◌then◌else◌, arith, ++_nil, ++_assoc,
}
use rp_t_minigames_server.Outcome.{Result, ok, err, out_of_range, Error}
use rp_t_minigames_server.Maps.{find, adjust, find-adjust}
use rp_t_minigames_server.Core.Service.{is_watched}
use rp_t_minigames_server.Network.Backend.{NetworkBackend, private_message}
use rp_t_minigames_server.Network.Websocket.{
  WebsocketBackend, on_backend, send_next, sync_client, sync_clients, synchronize, queue_of,
  emptied, sent_message_handler, pop_message,
}
use rp_t_minigames_server.Network.Websocket.Fifo.{
  for_client, stream_for, sent_of, stream-split, queueing, queue_of-emptied, sync_client-stream,
  send_next-Sends,
}

abbrev tokens_of : List (ℕ × List Text) → List ℕ
tokens_of queues = map (λ (entry : ℕ × List Text). entry.0) queues

-- What `.at` throws.
abbrev no_queue : Error
no_queue = out_of_range (text "_Map_base::at")

-- A client without an entry has no queue.
listed-or-none :
    (c : ℕ) (queues : List (ℕ × List Text))
    → (is_watched c (tokens_of queues) ≡ true) ⊎ (find c queues ≡ none)
unfolding is_watched find
listed-or-none c [] = inr refl
listed-or-none c ((t, q) ∷ queues) = elim (Bool-cases (t == c)) [
  | inl same ↦ inl (rw same refl)
  | inr apart ↦ rw apart (listed-or-none c queues)
]

-- A client whose turn comes, or whose queue is empty.
abbrev WillSync : ℕ → List ℕ → WebsocketBackend → Type 0
WillSync c tokens w = (is_watched c tokens ≡ true) ⊎ (queue_of c w.backend ≡ [])

next-WillSync :
    (c t : ℕ) (tokens : List ℕ) (w w' : WebsocketBackend)
    → w'.backend ≡ emptied t w.backend
    → WillSync c (t ∷ tokens) w
    → WillSync c tokens w'
unfolding is_watched
next-WillSync c t tokens w w' e h =
    let queue = ap (queue_of c) e ∙ queue_of-emptied c t w.backend in
    elim (Bool-cases (t == c)) [
      | inl same ↦ inr (queue ∙ rw same refl)
      | inr apart ↦ elim h [
        | inl listed ↦ inl (rw apart at listed)
        | inr idle ↦ inr (queue ∙ rw apart idle)
      ]
    ]

unlisted : (c : ℕ) → is_watched c [] ≡ true → ⊥
unfolding is_watched
unlisted c h = cc

sync_clients-stream :
    (c : ℕ) (tokens : List ℕ) (w : WebsocketBackend)
    → is_watched c w.clients_stream ≡ true
    → WillSync c tokens w
    → (stream_for c (sync_clients tokens w) ≡ stream_for c w)
      × (queue_of c (sync_clients tokens w).backend ≡ [])
unfolding sync_clients
sync_clients-stream c [] w connected (inl listed) = absurd (unlisted c listed)
sync_clients-stream c [] w connected (inr idle) = (refl, idle)
sync_clients-stream c (t ∷ tokens) w connected h =
    let (same, backend, streams) = sync_client-stream c t w connected in
    let (rest, idle) =
      sync_clients-stream c tokens (sync_client t w) (ap (is_watched c) streams ∙ connected)
        (next-WillSync c t tokens w (sync_client t w) backend h) in
    (rest ∙ same, idle)

idle_queue :
    (c : ℕ) (w : WebsocketBackend)
    → find c w.backend.clients_remaining_messages ≡ none
    → queue_of c w.backend ≡ []
idle_queue c w h = ground (arith, h)

-- The handler of a write, by the merged queue.
sent-stream :
    (c client_token : ℕ) (messages : List (ℕ × Text)) (w : WebsocketBackend)
    → is_watched c w.clients_stream ≡ true
    → stream_for c (sent_message_handler client_token none (queueing w messages)).1
      ≡ stream_for c (queueing w messages)
unfolding sent_message_handler pop_message
sent-stream c client_token [] w connected = refl
sent-stream c client_token (x ∷ messages) w connected =
    let (sends, backend, streams) = send_next-Sends c messages w connected in
    stream-split c (send_next (queueing w messages))
    ∙ ap (λ (l : List Text). l ++ queue_of c (send_next (queueing w messages)).backend) sends
    ∙ ap (λ (b : NetworkBackend). (for_client c w.written ++ for_client c messages) ++ queue_of c b)
        backend
    ∙ ++_assoc (for_client c w.written) (for_client c messages) (queue_of c w.backend)

-- For a client with a stream, the synchronization keeps its messages and their order, what is written
-- first, then what waits behind the message in flight, then what the backend has queued, and it leaves
-- nothing in the backend's queue. When a write succeeds, the handler that then writes the next message
-- keeps the messages of every such client and their order as well.
pub synchronize-stream :
    (c : ℕ) (w : WebsocketBackend)
    → is_watched c w.clients_stream ≡ true
    → (stream_for c (synchronize w) ≡ stream_for c w)
      × (queue_of c (synchronize w).backend ≡ [])
      × ((client_token : ℕ)
          → stream_for c (sent_message_handler client_token none w).1 ≡ stream_for c w)
unfolding synchronize
synchronize-stream c w connected =
    let (same, idle) =
      sync_clients-stream c (tokens_of w.backend.clients_remaining_messages) w connected
        (elim (listed-or-none c w.backend.clients_remaining_messages) [
          | inl listed ↦ inl listed
          | inr absent ↦ inr (idle_queue c w absent)
        ]) in
    (same, idle, λ client_token. sent-stream c client_token w.merged_remaining_messages w connected)

abbrev with_message : ℕ → Text → NetworkBackend → NetworkBackend
with_message t m b = record b {
  clients_remaining_messages =
      adjust t (λ (l : List Text). l ++ m ∷ []) b.clients_remaining_messages;
}

queue_of-private :
    (c t : ℕ) (m : Text) (q : List Text) (b : NetworkBackend)
    → find t b.clients_remaining_messages ≡ some q
    → queue_of c (with_message t m b) ≡ queue_of c b ++ (if t == c then m ∷ [] else [])
queue_of-private c t m q b found = ground (
  arith,
  found,
  find-adjust t c (λ (l : List Text). l ++ m ∷ []) b.clients_remaining_messages,
  ++_nil (queue_of c b),
  same_queue t c b.clients_remaining_messages,
)
  where
    same_queue :
        (t c : ℕ) (queues : List (ℕ × List Text)) → (t == c) ≡ true → find t queues ≡ find c queues
    same_queue t c queues h = ap (λ x. find x queues) (==→≡ t c h)

private-none :
    (t : ℕ) (m : Text) (w : WebsocketBackend)
    → find t w.backend.clients_remaining_messages ≡ none
    → on_backend (private_message t m) w ≡ (err no_queue, w)
unfolding private_message
private-none t m w h = rw h refl

private-some :
    (t : ℕ) (m : Text) (q : List Text) (w : WebsocketBackend)
    → find t w.backend.clients_remaining_messages ≡ some q
    → on_backend (private_message t m) w
      ≡ (ok tt, record w { backend = with_message t m w.backend })
unfolding private_message
private-some t m q w h = rw h refl

-- What queueing a message for `t` does to the messages of a client, by the queue that `t` has.
abbrev pub Queued :
    ℕ
    → ℕ
    → Text
    → WebsocketBackend
    → Option (List Text)
    → Result (Unit {0}) × WebsocketBackend
    → Type 0
Queued c t m w none x = x ≡ (err no_queue, w)
Queued c t m w (some q) x =
    (x.0 ≡ ok tt) × (stream_for c x.1 ≡ stream_for c w ++ (if t == c then m ∷ [] else []))

-- For a client that has a queue, the call that queues a message returns; the message then comes last
-- among the messages of that client, and those of every other client are as they were. For a client
-- without a queue the call throws what `.at` throws and changes nothing.
pub private_message-stream :
    (c t : ℕ) (m : Text) (w : WebsocketBackend)
    → Queued c t m w
        (find t w.backend.clients_remaining_messages)
        (on_backend (private_message t m) w)
private_message-stream c t m w = elim (Option-cases (find t w.backend.clients_remaining_messages)) [
  | inl absent ↦ rw absent (private-none t m w absent)
  | inr (q, held) ↦
      let w' = record w { backend = with_message t m w.backend } in
      rw held (
        ap (λ (x : Result (Unit {0}) × WebsocketBackend). x.0) (private-some t m q w held),
        ap (λ (x : Result (Unit {0}) × WebsocketBackend). stream_for c x.1)
              (private-some t m q w held)
            ∙ stream-split c w'
            ∙ ap (λ (l : List Text). sent_of c w ++ l) (queue_of-private c t m q w.backend held)
            ∙ sym (++_assoc (sent_of c w) (queue_of c w.backend) (if t == c then m ∷ [] else []))
            ∙ ap (λ (l : List Text). l ++ (if t == c then m ∷ [] else [])) (sym (stream-split c w)),
      )
]
