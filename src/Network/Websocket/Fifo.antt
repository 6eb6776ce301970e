-- ===== src/Network/Websocket/Fifo.antt =====
-- The messages for one client: queued by the backend, merged into the queue of all, written to its stream.
use rp_t_minigames_server.Prelude.{
  ℕ, ◌≡◌, refl, sym, ◌∙◌, ap, ◌⊎◌, inl, inr, Bool, true, false, Bool-cases, List, [], ◌∷◌, ◌++◌,
  map, Text, ◌==◌, ==→≡, if◌then◌else◌, is_empty, arith, ++_nil, ++_assoc,
}
use rp_t_minigames_server.Maps.{find-adjust}
use rp_t_minigames_server.Core.Service.{is_watched}
use rp_t_minigames_server.Network.Backend.{NetworkBackend}
use rp_t_minigames_server.Network.Websocket.{
  WebsocketBackend, send_from, send_next, sync_client, queue_of, emptied,
}

abbrev pub for_client : ℕ → List (ℕ × Text) → List Text
for_client c [] = []
for_client c ((t, m) ∷ messages) =
    let rest = for_client c messages in if t == c then m ∷ rest else rest

abbrev pub rest_of : List (ℕ × Text) → List (ℕ × Text)
rest_of [] = []
rest_of (x ∷ messages) = messages

-- All messages that a client was ever sent, in their order: what is written, what waits behind the
-- message in flight, and what the backend has queued for it.
abbrev pub stream_for : ℕ → WebsocketBackend → List Text
stream_for c w =
    for_client c w.written
    ++ (for_client c (rest_of w.merged_remaining_messages) ++ queue_of c w.backend)

for_client-append :
    (c : ℕ) (xs ys : List (ℕ × Text)) → for_client c (xs ++ ys) ≡ for_client c xs ++ for_client c ys
for_client-append c [] ys = refl
for_client-append c ((t, m) ∷ xs) ys = ground (arith, for_client-append c xs ys)

-- The messages of one client, tagged.
for_client-tagged :
    (c t : ℕ) (queue : List Text)
    → for_client c (map (λ (m : Text). (t, m)) queue) ≡ (if t == c then queue else [])
for_client-tagged c t [] = ground arith
for_client-tagged c t (m ∷ queue) = ground (arith, for_client-tagged c t queue)

-- What is written for a client, and what waits behind the message in flight.
abbrev pub sent_of : ℕ → WebsocketBackend → List Text
sent_of c w = for_client c w.written ++ for_client c (rest_of w.merged_remaining_messages)

watched-differ :
    (t c : ℕ) (tokens : List ℕ)
    → is_watched t tokens ≡ false
    → is_watched c tokens ≡ true
    → (t == c) ≡ false
watched-differ t c tokens gone there = elim (Bool-cases (t == c)) [
  | inr apart ↦ apart
  | inl same ↦ absurd (clash (sym gone ∙ ap (λ x. is_watched x tokens) (==→≡ t c same) ∙ there))
]
  where
    clash : false ≡ true → ⊥
    clash h = cc

-- A round of sending writes the next message to a connected client, and skips none of its own.
send_from-sends :
    (c : ℕ) (messages : List (ℕ × Text)) (w : WebsocketBackend)
    → is_watched c w.clients_stream ≡ true
    → sent_of c (send_from messages w) ≡ for_client c w.written ++ for_client c messages
unfolding send_from
send_from-sends c [] w connected = refl
send_from-sends c ((t, m) ∷ messages) w connected =
    let writing = record w {
      merged_remaining_messages = (t, m) ∷ messages;
      written = w.written ++ (t, m) ∷ [];
    } in
    let chosen = λ (b : Bool). sent_of c (if b then writing else send_from messages w) in
    elim (Bool-cases (is_watched t w.clients_stream)) [
      | inl there ↦
          ap chosen there
          ∙ ap (λ (l : List Text). l ++ for_client c messages)
              (for_client-append c w.written ((t, m) ∷ []))
          ∙ ++_assoc (for_client c w.written) (for_client c ((t, m) ∷ [])) (for_client c messages)
          ∙ ap (λ (l : List Text). for_client c w.written ++ l)
              (sym (for_client-append c ((t, m) ∷ []) messages))
      | inr gone ↦
          ap chosen gone
          ∙ send_from-sends c messages w connected
          ∙ ap
              (λ (b : Bool).
                for_client c w.written
                ++ (if b then m ∷ for_client c messages else for_client c messages))
              (sym (watched-differ t c w.clients_stream gone connected))
    ]

send_from-kept :
    (messages : List (ℕ × Text)) (w : WebsocketBackend)
    → ((send_from messages w).backend ≡ w.backend)
      × ((send_from messages w).clients_stream ≡ w.clients_stream)
unfolding send_from
send_from-kept [] w = (refl, refl)
send_from-kept ((t, m) ∷ messages) w = elim (Bool-cases (is_watched t w.clients_stream)) [
  | inl there ↦ rw there (refl, refl)
  | inr gone ↦ rw gone (send_from-kept messages w)
]

-- The queue of a client once that of the client `t` is merged.
pub queue_of-emptied :
    (c t : ℕ) (b : NetworkBackend)
    → queue_of c (emptied t b) ≡ (if t == c then [] else queue_of c b)
queue_of-emptied c t b = ground (arith, find-adjust t c (λ q. []) b.clients_remaining_messages)

abbrev tagged : ℕ → WebsocketBackend → List (ℕ × Text)
tagged t w = map (λ (m : Text). (t, m)) (queue_of t w.backend)

-- What leaves the queue of a client comes back among the tagged messages.
tagged-rest :
    (c t : ℕ) (w : WebsocketBackend)
    → for_client c (tagged t w) ++ queue_of c (emptied t w.backend) ≡ queue_of c w.backend
tagged-rest c t w =
    ap (λ (l : List Text). l ++ queue_of c (emptied t w.backend))
      (for_client-tagged c t (queue_of t w.backend))
    ∙ ap (λ (l : List Text). (if t == c then queue_of t w.backend else []) ++ l)
        (queue_of-emptied c t w.backend)
    ∙ merged (Bool-cases (t == c))
  where
    merged :
        ((t == c) ≡ true) ⊎ ((t == c) ≡ false)
        → (if t == c then queue_of t w.backend else [])
            ++ (if t == c then [] else queue_of c w.backend)
          ≡ queue_of c w.backend
    merged (inl same) =
        rw same (++_nil (queue_of t w.backend) ∙ ap (λ x. queue_of x w.backend) (==→≡ t c same))
    merged (inr apart) = rw apart refl

pub stream-split :
    (c : ℕ) (w : WebsocketBackend) → stream_for c w ≡ sent_of c w ++ queue_of c w.backend
stream-split c w = sym (
    ++_assoc (for_client c w.written) (for_client c (rest_of w.merged_remaining_messages))
      (queue_of c w.backend))

abbrev pub queueing : WebsocketBackend → List (ℕ × Text) → WebsocketBackend
queueing w messages = record w { merged_remaining_messages = messages }

-- Sending with nothing in flight.
abbrev pub Sends : ℕ → WebsocketBackend → List (ℕ × Text) → WebsocketBackend → Type 0
Sends c w messages w' =
    (sent_of c w' ≡ for_client c w.written ++ for_client c messages)
    × (w'.backend ≡ w.backend)
    × (w'.clients_stream ≡ w.clients_stream)

pub send_next-Sends :
    (c : ℕ) (messages : List (ℕ × Text)) (w : WebsocketBackend)
    → is_watched c w.clients_stream ≡ true
    → Sends c w messages (send_next (queueing w messages))
send_next-Sends c [] w connected = (refl, refl, refl)
send_next-Sends c (x ∷ messages) w connected =
    let (b, s) = send_from-kept (x ∷ messages) (queueing w (x ∷ messages)) in
    (send_from-sends c (x ∷ messages) (queueing w (x ∷ messages)) connected, b, s)

-- The merge of one client's queue, with what was merged before.
merge-Sends :
    (c : ℕ) (before new : List (ℕ × Text)) (w : WebsocketBackend)
    → is_watched c w.clients_stream ≡ true
    → let merged = queueing w (before ++ new) in
      let w' = if is_empty before then send_next merged else merged in
      (sent_of c w' ≡ sent_of c (queueing w before) ++ for_client c new)
      × (w'.backend ≡ w.backend)
      × (w'.clients_stream ≡ w.clients_stream)
merge-Sends c [] new w connected =
    let (s, b, l) = send_next-Sends c new w connected in
    (
      s ∙ ap (λ (l : List Text). l ++ for_client c new) (sym (++_nil (for_client c w.written))),
      b,
      l,
    )
merge-Sends c (x ∷ before) new w connected = (
  ap (λ (l : List Text). for_client c w.written ++ l) (for_client-append c before new)
      ∙ sym (++_assoc (for_client c w.written) (for_client c before) (for_client c new)),
  refl,
  refl,
)

merged-backend :
    (before new : List (ℕ × Text)) (w : WebsocketBackend)
    → let merged = queueing w (before ++ new) in
      (if is_empty before then send_next merged else merged).backend ≡ w.backend
merged-backend [] [] w = refl
merged-backend [] (x ∷ new) w = (send_from-kept (x ∷ new) (queueing w (x ∷ new))).0
merged-backend (x ∷ before) new w = refl

-- All that the synchronization of a client does to the backend.
pub sync_client-backend :
    (t : ℕ) (w : WebsocketBackend) → (sync_client t w).backend ≡ emptied t w.backend
unfolding sync_client
sync_client-backend t w =
    merged-backend w.merged_remaining_messages (tagged t w)
      (record w { backend = emptied t w.backend })

-- The synchronization of any client leaves the messages of a connected one as they are.
pub sync_client-stream :
    (c t : ℕ) (w : WebsocketBackend)
    → is_watched c w.clients_stream ≡ true
    → (stream_for c (sync_client t w) ≡ stream_for c w)
      × ((sync_client t w).backend ≡ emptied t w.backend)
      × ((sync_client t w).clients_stream ≡ w.clients_stream)
unfolding sync_client
sync_client-stream c t w connected =
    let w1 = record w { backend = emptied t w.backend } in
    let (s, b, l) = merge-Sends c w.merged_remaining_messages (tagged t w) w1 connected in
    (
      stream-split c (sync_client t w)
          ∙ ap (λ (x : List Text). x ++ queue_of c (sync_client t w).backend) s
          ∙ ap (λ (x : NetworkBackend). (sent_of c w ++ for_client c (tagged t w)) ++ queue_of c x)
              b
          ∙ ++_assoc (sent_of c w) (for_client c (tagged t w)) (queue_of c (emptied t w.backend))
          ∙ ap (λ (x : List Text). sent_of c w ++ x) (tagged-rest c t w)
          ∙ sym (stream-split c w),
      b,
      l,
    )
