-- ===== src/Services/Chat.antt =====
-- minigames-services/src/ChatService.cpp and include/Minigames-Services/ChatService.hpp.
pub mod Cooldown
pub mod Trimmed
use rp_t_minigames_server.Prelude.{
  ℕ, ◌&&◌, List, [], ◌∷◌, ◌++◌, Text, text, if◌then◌else◌, is_empty,
}
use rp_t_minigames_server.Outcome.{Action, pure, gets, modify, zoom, ◌>>=◌, ◌>>◌}
use rp_t_minigames_server.Numbers.{to_string, is_space, skip_spaces}
use rp_t_minigames_server.Utils.HandlingResult.{HandlingResult, handled, refused}
use rp_t_minigames_server.Core.Timer
use rp_t_minigames_server.Core.Timer.{
  Timer, ServiceContext, new_timer, has_triggered, is_free, request_countdown,
}
use rp_t_minigames_server.Core.Service.{Service, emit_event}

-- Without the spaces at its end.
unfoldable pub trim_end : Text → Text
trim_end [] = []
trim_end (c ∷ s) = let rest = trim_end s in if is_space c && is_empty rest then [] else c ∷ rest

unfoldable pub trim : Text → Text
unfolding trim_end skip_spaces
trim chat_message = trim_end (skip_spaces chat_message)

-- The routines of the cooldown are those of the executor and of the backend, kept as they run.
pub record ChatService (C : Type 0) : Type 0 where
  pub run_context : ServiceContext
  pub service : Service
  pub cooldown_msg : Text
  pub cooldown : Timer C
  pub routines_run : List C

module _ {C : Type 0} where
  unfoldable pub new_chat : ServiceContext → ℕ → ChatService C
  new_chat context cooldown_ms =
      let (timer, context') = new_timer context cooldown_ms in
      record {
        run_context = context';
        service = record { events_queue = []; watched_timers = timer.token ∷ [] };
        cooldown_msg =
            text "Last message when sent less than " ++ to_string cooldown_ms ++ text " ms ago";
        cooldown = timer;
        routines_run = [];
      }

  abbrev pub emit : Text → List ℕ → Action (ChatService C) (Unit {0})
  emit event_command event_targets = modify λ s.
      let (context, service) = emit_event event_command event_targets (s.run_context, s.service) in
      record s { run_context = context; service = service }

  abbrev pub keep_routine : C → Action (List C) (Unit {0})
  keep_routine c = modify (λ cs. cs ++ c ∷ [])

  unfoldable pub clear_cooldown : Action (ChatService C) (Unit {0})
  clear_cooldown =
      zoom (λ s. (s.cooldown, s.routines_run))
        (λ x s. record s { cooldown = x.0; routines_run = x.1 }) (Timer.clear keep_routine)

  -- Behind the test for a visible message.
  unfoldable pub send : ℕ → Text → Action (ChatService C) HandlingResult
  unfolding clear_cooldown
  send actor chat_message = do
    timed_out ← gets (λ s. has_triggered s.cooldown)
    if timed_out then clear_cooldown else pure tt
    available ← gets (λ s. is_free s.cooldown)
    if available
        then (do
          emit (text "MESSAGE_FROM " ++ to_string actor ++ text " " ++ chat_message) []
          zoom (λ s. s.cooldown) (λ t s. record s { cooldown = t }) request_countdown
          pure handled)
        else gets (λ s. refused s.cooldown_msg)

  unfoldable pub handle_request_command : ℕ → Text → Action (ChatService C) HandlingResult
  unfolding trim send
  handle_request_command actor sr_command_data =
      let chat_message = trim sr_command_data in
      if is_empty chat_message
      then pure (refused (text "Message cannot be empty"))
      else send actor chat_message
