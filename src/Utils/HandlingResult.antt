-- ===== src/Utils/HandlingResult.antt =====
-- rpt-utils/src/HandlingResult.cpp and include/RpT-Utils/HandlingResult.hpp.
use rp_t_minigames_server.Prelude.{Bool, true, false, Option, none, some, Text}
use rp_t_minigames_server.Outcome.{Result, ok, err, no_error_message}

pub record HandlingResult : Type 0 where
  pub possible_error_message : Option Text

abbrev pub handled : HandlingResult
handled = record { possible_error_message = none }

abbrev pub refused : Text → HandlingResult
refused error_message = record { possible_error_message = some error_message }

-- `operator bool`.
abbrev pub is_success : HandlingResult → Bool
is_success r = elim r.possible_error_message [ none ↦ true | some m ↦ false ]

abbrev pub error_message : HandlingResult → Result Text
error_message r = elim r.possible_error_message [ none ↦ err no_error_message | some m ↦ ok m ]
