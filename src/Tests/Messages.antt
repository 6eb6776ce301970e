-- ===== src/Tests/Messages.antt =====
-- Messages to the chat.
use rp_t_minigames_server.Prelude.{ℕ, ◌≡◌, refl, [], ◌∷◌, ◌++◌, Text, text}
use rp_t_minigames_server.Outcome.{ok}
use rp_t_minigames_server.Utils.HandlingResult.{refused}
use rp_t_minigames_server.Core.Timer.{triggered}
use rp_t_minigames_server.Services.Chat.{ChatService, handle_request_command}
use rp_t_minigames_server.Services.Chat.Trimmed.{Spaces}
use rp_t_minigames_server.Services.Chat.Cooldown.{Sent, chat_cooldown}

abbrev chat : ChatService ℕ
chat = record {
  run_context = record { events_count = 5; timers_count = 2 };
  service = record { events_queue = []; watched_timers = 1 ∷ [] };
  cooldown_msg = [];
  cooldown = record {
    token = 1;
    countdown_ms = 2000;
    current_state = triggered;
    clear_callbacks = 8 ∷ [];
    trigger_callbacks = 9 ∷ [];
  };
  routines_run = [];
}

-- Two spaces, and two words.
abbrev spaces : Text
spaces = b' ' ∷ b' ' ∷ []

abbrev hello : Text
hello = b'o' ∷ b'h' ∷ b' ' ∷ b'!' ∷ []

abbrev answer : Text
answer = b'o' ∷ b'k' ∷ []

two_spaces : Spaces spaces
two_spaces = (refl, (refl, tt))

chat_cooldown_example :
    let sent = handle_request_command 4 (spaces ++ (hello ++ spaces)) chat in
    (handle_request_command 4 spaces chat ≡ (ok (refused (text "Message cannot be empty")), chat))
    × Sent 4 hello chat triggered sent
    × (handle_request_command 7 (spaces ++ (answer ++ spaces)) sent.1
        ≡ (ok (refused chat.cooldown_msg), sent.1))
chat_cooldown_example =
    chat_cooldown 4 7 spaces spaces hello spaces answer chat two_spaces two_spaces (refl, refl)
      two_spaces (refl, refl)
