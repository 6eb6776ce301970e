-- ===== src/Services/Chat/Cooldown.antt =====
-- When the chat takes a message.
use rp_t_minigames_server.Prelude.{
  ℕ, ◌≡◌, refl, sym, ◌∙◌, ap, subst, List, [], ◌∷◌, ◌++◌, ++_nil, ++_assoc, Text, text, is_empty,
  if◌then◌else◌, Bool,
}
use rp_t_minigames_server.Outcome.{Result, ok, after, pure, gets, zoom, ◌>>=◌, ◌>>◌}
use rp_t_minigames_server.Numbers.{to_string}
use rp_t_minigames_server.Utils.HandlingResult.{HandlingResult, handled, refused}
use rp_t_minigames_server.Core.Timer.{
  TimerState, disabled, ready, pending, triggered, check_state, request_countdown, run_all, clear,
  same_state, is_free,
}
use rp_t_minigames_server.Core.Service.{emit_event}
use rp_t_minigames_server.Services.Chat.{
  ChatService, emit, send, clear_cooldown, keep_routine, handle_request_command,
}
use rp_t_minigames_server.Services.Chat.Trimmed.{
  Spaces, Visible, trim-Visible, trim-Spaces, is_empty-Visible,
}

module _ {C : Type 0} where
  -- A message that is taken: it is emitted to everyone with its author, and the cooldown is requested.
  pub record Taken (actor : ℕ) (core : Text) (s : ChatService C) (run : List C)
      (x : Result HandlingResult × ChatService C) : Type 0 where
    pub result : x.0 ≡ ok handled
    pub requested : x.1.cooldown.current_state ≡ ready
    pub emitted :
        (x.1.run_context, x.1.service)
        ≡ emit_event
            (text "MESSAGE_FROM " ++ to_string actor ++ text " " ++ core)
            []
            (s.run_context, s.service)
    pub ran : x.1.routines_run ≡ s.routines_run ++ run
    pub explained : x.1.cooldown_msg ≡ s.cooldown_msg

  -- What the chat does with a visible message, by the state of its cooldown.
  abbrev pub Sent :
      ℕ → Text → ChatService C → TimerState → Result HandlingResult × ChatService C → Type 0
  Sent actor core s disabled x = Taken actor core s [] x
  Sent actor core s triggered x = Taken actor core s s.cooldown.clear_callbacks x
  Sent actor core s ready x = x ≡ (ok (refused s.cooldown_msg), s)
  Sent actor core s pending x = x ≡ (ok (refused s.cooldown_msg), s)

  run_all-keep : (cs run : List C) → run_all keep_routine cs run ≡ (ok tt, run ++ cs)
  unfolding run_all
  run_all-keep [] run = ap (λ (l : List C). (ok tt, l)) (sym (++_nil run))
  run_all-keep (c ∷ cs) run =
      run_all-keep cs (run ++ c ∷ []) ∙ ap (λ (l : List C). (ok tt, l)) (++_assoc run (c ∷ []) cs)

  abbrev cleared : ChatService C → ChatService C
  cleared s = record s {
    cooldown = record (s.cooldown) {
      current_state = disabled;
      clear_callbacks = [];
      trigger_callbacks = [];
    };
    routines_run = s.routines_run ++ s.cooldown.clear_callbacks;
  }

  clear_cooldown-cleared : (s : ChatService C) → clear_cooldown s ≡ (ok tt, cleared s)
  unfolding clear_cooldown clear
  clear_cooldown-cleared s = rw (run_all-keep s.cooldown.clear_callbacks s.routines_run) refl

  -- What follows the test for a cooldown that has triggered.
  abbrev try_send : ℕ → Text → ChatService C → Result HandlingResult × ChatService C
  try_send actor core = do
    available ← gets (λ s. is_free s.cooldown)
    if available
        then (do
          emit (text "MESSAGE_FROM " ++ to_string actor ++ text " " ++ core) []
          zoom (λ s. s.cooldown) (λ t s. record s { cooldown = t }) request_countdown
          pure handled)
        else gets (λ s. refused s.cooldown_msg)

  send-cleared :
      (actor : ℕ) (core : Text) (s : ChatService C)
      → s.cooldown.current_state ≡ triggered
      → send actor core s ≡ send actor core (cleared s)
  unfolding send
  send-cleared actor core s h =
      ap
        (λ (x : Result (Unit {0}) × ChatService C).
          after x.0 (λ (u : Unit {0}). try_send actor core x.1) x.1)
        (ap (λ (b : Bool). (if b then clear_cooldown else pure tt) s)
            (ap (λ (state : TimerState). same_state state triggered) h)
          ∙ clear_cooldown-cleared s)

  send-Taken :
      (actor : ℕ) (core : Text) (s : ChatService C)
      → s.cooldown.current_state ≡ disabled
      → Taken actor core s [] (send actor core s)
  unfolding send request_countdown check_state
  send-Taken actor core s h = record {
    result = rw h refl;
    requested = rw h refl;
    emitted = rw h refl;
    ran = rw h (sym (++_nil s.routines_run));
    explained = rw h refl;
  }

  send-Sent :
      (actor : ℕ) (core : Text) (s : ChatService C) (state : TimerState)
      → s.cooldown.current_state ≡ state
      → Sent actor core s state (send actor core s)
  unfolding send request_countdown check_state
  send-Sent actor core s disabled h = send-Taken actor core s h
  send-Sent actor core s ready h = rw h refl
  send-Sent actor core s pending h = rw h refl
  send-Sent actor core s triggered h =
      let sent = send-Taken actor core (cleared s) refl in
      subst (Taken actor core s s.cooldown.clear_callbacks) (sym (send-cleared actor core s h))
        record {
          result = sent.result;
          requested = sent.requested;
          emitted = sent.emitted;
          ran = sent.ran ∙ ++_nil (s.routines_run ++ s.cooldown.clear_callbacks);
          explained = sent.explained;
        }

  handled_message :
      (actor : ℕ) (front core back : Text) (s : ChatService C)
      → Spaces front
      → Visible core
      → Spaces back
      → handle_request_command actor (front ++ (core ++ back)) s ≡ send actor core s
  unfolding handle_request_command
  handled_message actor front core back s p v q =
      ap
        (λ (m : Text).
          (if is_empty m then pure (refused (text "Message cannot be empty")) else send actor m) s)
        (trim-Visible front core back p v q)
      ∙ rw (is_empty-Visible core v) refl

  blank_message :
      (actor : ℕ) (blank : Text) (s : ChatService C)
      → Spaces blank
      → handle_request_command actor blank s ≡ (ok (refused (text "Message cannot be empty")), s)
  unfolding handle_request_command
  blank_message actor blank s p = rw (trim-Spaces blank p) refl

  -- After a visible message, taken or not, the next one is refused.
  next-refused :
      (actor other : ℕ) (core next : Text) (s : ChatService C) (state : TimerState)
      → Sent actor core s state (send actor core s)
      → s.cooldown.current_state ≡ state
      → send other next (send actor core s).1 ≡ (ok (refused s.cooldown_msg), (send actor core s).1)
  next-refused actor other core next s disabled sent h =
      send-Sent other next (send actor core s).1 ready sent.requested
      ∙ ap (λ (m : Text). (ok (refused m), (send actor core s).1)) sent.explained
  next-refused actor other core next s triggered sent h =
      send-Sent other next (send actor core s).1 ready sent.requested
      ∙ ap (λ (m : Text). (ok (refused m), (send actor core s).1)) sent.explained
  next-refused actor other core next s ready sent h =
      ap (λ (x : Result HandlingResult × ChatService C). send other next x.1) sent
      ∙ send-Sent other next s ready h
      ∙ ap (λ (x : Result HandlingResult × ChatService C). (ok (refused s.cooldown_msg), x.1))
          (sym sent)
  next-refused actor other core next s pending sent h =
      ap (λ (x : Result HandlingResult × ChatService C). send other next x.1) sent
      ∙ send-Sent other next s pending h
      ∙ ap (λ (x : Result HandlingResult × ChatService C). (ok (refused s.cooldown_msg), x.1))
          (sym sent)

  -- A message of nothing but spaces is refused and changes nothing. One that is visible, with spaces
  -- around it, is taken without these spaces when the cooldown is disabled, or has triggered and is then
  -- cleared, which runs its routines first: it is emitted to everyone with its author, and the cooldown
  -- is requested. While the cooldown is requested or runs it is refused and changes nothing. In each
  -- case a visible message of anyone right after it is refused and changes nothing.
  pub chat_cooldown :
      (actor other : ℕ) (blank front core back next : Text) (s : ChatService C)
      → Spaces blank
      → Spaces front
      → Visible core
      → Spaces back
      → Visible next
      → let sent = handle_request_command actor (front ++ (core ++ back)) s in
        (handle_request_command actor blank s ≡ (ok (refused (text "Message cannot be empty")), s))
        × Sent actor core s s.cooldown.current_state sent
        × (handle_request_command other (front ++ (next ++ back)) sent.1
            ≡ (ok (refused s.cooldown_msg), sent.1))
  chat_cooldown actor other blank front core back next s none_visible p v q w =
      let once = handled_message actor front core back s p v q in
      let done = send-Sent actor core s s.cooldown.current_state refl in
      (
        blank_message actor blank s none_visible,
        subst (Sent actor core s s.cooldown.current_state) (sym once) done,
        ap
              (λ (x : Result HandlingResult × ChatService C).
                handle_request_command other (front ++ (next ++ back)) x.1)
              once
            ∙ handled_message other front next back (send actor core s).1 p w q
            ∙ next-refused actor other core next s s.cooldown.current_state done refl
            ∙ ap (λ (x : Result HandlingResult × ChatService C). (ok (refused s.cooldown_msg), x.1))
                (sym once),
      )
