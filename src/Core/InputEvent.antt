-- ===== src/Core/InputEvent.antt =====
-- rpt-core/include/RpT-Core/InputEvent.hpp.
use rp_t_minigames_server.Prelude.{ℕ, Text}
use rp_t_minigames_server.Outcome.{}
use rp_t_minigames_server.Utils.HandlingResult.{HandlingResult}

pub data InputEvent : Type 0 where
  none_event : ℕ → InputEvent
  service_request_event : ℕ → Text → InputEvent
  timer_event : ℕ → ℕ → InputEvent
  joined_event : ℕ → Text → InputEvent
  left_event : ℕ → HandlingResult → InputEvent
