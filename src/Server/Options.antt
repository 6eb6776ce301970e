-- ===== src/Server/Options.antt =====
-- minigames-server/src/Main.cpp: what the program reads from its command line before it makes its
-- services. `is_regular_file` is Boost.Filesystem's.
pub mod Port
use rp_t_minigames_server.Prelude.{
  ℕ, ◌-◌, ◌^◌, Bool, true, false, not, List, [], ◌∷◌, ◌++◌, Option, none, some, Text, text, text_eq,
  ltb, ◌==◌, ◌||◌, if◌then◌else◌,
}
use rp_t_minigames_server.Outcome.{Result, ok, err, Error, invalid_argument}
use rp_t_minigames_server.Numbers.{stoull}
use rp_t_minigames_server.Utils.CommandLine.{
  Options, OptionsError, options_error, Parsed, parsed, failed, new_command_line, has, get,
}

abbrev pub default_port : ℕ
default_port = 35555

pub data SelectedMinigame : Type 0 where
  selected_acores selected_bermudes selected_canaries : SelectedMinigame

pub data LogLevel : Type 0 where
  trace_level debug_level info_level warn_level err_level fatal_level : LogLevel

-- What ends `main` early: the errors of its first `catch`, and those of the second.
pub data Failure : Type 0 where
  command_line : OptionsError → Failure
  runtime : Error → Failure

pub data Setup (A : Type 0) : Type 0 where
  set_up : A → Setup A
  stopped : Failure → Setup A

module _ {A B : Type 0} where
  abbrev pub bind_setup : Setup A → (A → Setup B) → Setup B
  bind_setup (set_up a) f = f a
  bind_setup (stopped e) f = stopped e

module _ {A : Type 0} where
  abbrev pub from_options : Parsed A → Setup A
  from_options (parsed a) = set_up a
  from_options (failed e) = stopped (command_line e)

  abbrev pub from_call : Result A → Setup A
  from_call (ok a) = set_up a
  from_call (err e) = stopped (runtime e)

unfoldable pub parse_minigame : Text → Result SelectedMinigame
parse_minigame [] =
    err (invalid_argument (text "RpT Minigame abbreviation must be a single letter"))
parse_minigame (c ∷ d ∷ rest) =
    err (invalid_argument (text "RpT Minigame abbreviation must be a single letter"))
parse_minigame (minigame_initial_letter ∷ []) =
    if minigame_initial_letter == b'a'
    then ok selected_acores
    else if minigame_initial_letter == b'b'
    then ok selected_bermudes
    else if minigame_initial_letter == b'c'
    then ok selected_canaries
    else err (
        invalid_argument
          (text "Unable to parse minigame name for abbreviation " ++ minigame_initial_letter ∷ []))

unfoldable pub parse_log_level : Text → Result LogLevel
parse_log_level level =
    if text_eq level (text "t") || text_eq level (text "trace")
    then ok trace_level
    else if text_eq level (text "d") || text_eq level (text "debug")
    then ok debug_level
    else if text_eq level (text "i") || text_eq level (text "info")
    then ok info_level
    else if text_eq level (text "w") || text_eq level (text "warn")
    then ok warn_level
    else if text_eq level (text "e") || text_eq level (text "error")
    then ok err_level
    else if text_eq level (text "f") || text_eq level (text "fatal")
    then ok fatal_level
    else err (invalid_argument (text "Unable to parse level \"" ++ level ++ text "\""))

-- The level that the logging context is left with. A failure is ignored; its default is `INFO`.
unfoldable pub log_level_of : Options → LogLevel
unfolding parse_log_level
log_level_of options =
    if has (text "log-level") options
    then (elim (get (text "log-level") options) [
      | failed e ↦ info_level
      | parsed level ↦ elim (parse_log_level level) [ ok l ↦ l | err e ↦ info_level ]
    ])
    else info_level

abbrev pub port_of_number : ℕ → Setup ℕ
port_of_number parsed_port =
    if ltb (2 ^ 16 - 1) parsed_port
    then stopped
        (command_line (options_error (text "port argument must be included inside 0..65535")))
    else set_up parsed_port

unfoldable pub local_port_of : Options → Setup ℕ
local_port_of options =
    if has (text "port") options
    then bind_setup (from_options (get (text "port") options))
        (λ port_argument. bind_setup (from_call (stoull port_argument)) port_of_number)
    else set_up default_port

pub data InternetProtocol : Type 0 where
  v4 v6 : InternetProtocol

abbrev pub protocol_for : Text → Setup InternetProtocol
protocol_for mode =
    if text_eq mode (text "v4")
    then set_up v4
    else if text_eq mode (text "v6")
    then set_up v6
    else stopped (command_line (options_error (text "Unknown IP protocol: " ++ mode)))

unfoldable pub local_protocol_of : Options → Setup InternetProtocol
local_protocol_of options =
    if has (text "ip") options
    then bind_setup (from_options (get (text "ip") options)) protocol_for
    else set_up v4

-- The backend, with the paths of its certificate and of its private key.
pub data SelectedBackend : Type 0 where
  safe : Text → Text → SelectedBackend
  unsafe : SelectedBackend

abbrev pub backend_name_of : Options → Setup Text
backend_name_of options =
    if has (text "net-backend") options
    then from_options (get (text "net-backend") options)
    else set_up (text "wss")

module _ (is_regular_file : Text → Bool) where
  abbrev pub checked_paths : Text → Text → Setup SelectedBackend
  checked_paths certificate private_key =
      if not (is_regular_file certificate)
      then stopped (
          command_line
            (options_error (text "Given certificate path isn't a valid path to regular file")))
      else if not (is_regular_file private_key)
      then stopped (
          command_line
            (options_error (text "Given private key path isn't a valid path to reguler file")))
      else set_up (safe certificate private_key)

  unfoldable pub backend_for : Text → Options → Setup SelectedBackend
  backend_for name options =
      if text_eq name (text "wss")
      then bind_setup (from_options (get (text "crt") options)) (λ certificate_option.
        bind_setup (from_options (get (text "privkey") options))
          (λ private_key_option. checked_paths certificate_option private_key_option))
      else if text_eq name (text "unsafe-ws")
      then set_up unsafe
      else stopped (command_line (options_error (text "Unknown networking backend " ++ name)))

pub record Settings : Type 0 where
  pub selected_minigame : SelectedMinigame
  pub log_level : LogLevel
  pub local_port : ℕ
  pub local_protocol : InternetProtocol
  pub backend : SelectedBackend
  pub testing : Bool

abbrev pub allowed_options : List Text
allowed_options =
    text "game"
    ∷ text "log-level"
    ∷ text "testing"
    ∷ text "ip"
    ∷ text "port"
    ∷ text "net-backend"
    ∷ text "crt"
    ∷ text "privkey"
    ∷ []

-- The options in the order in which `main` reads them.
unfoldable pub read_options : (Text → Bool) → Options → Setup Settings
unfolding parse_minigame log_level_of local_port_of local_protocol_of backend_for
read_options is_regular_file options =
    bind_setup (from_options (get (text "game") options)) (λ game_abbreviation.
      bind_setup (from_call (parse_minigame game_abbreviation)) (λ selected_minigame.
        bind_setup (local_port_of options) (λ local_port.
          bind_setup (local_protocol_of options) (λ local_protocol.
            bind_setup (backend_name_of options) (λ name.
              bind_setup (backend_for is_regular_file name options) (λ backend. set_up (record {
                selected_minigame = selected_minigame;
                log_level = log_level_of options;
                local_port = local_port;
                local_protocol = local_protocol;
                backend = backend;
                testing = has (text "testing") options;
              })))))))

unfoldable pub settings_for : (Text → Bool) → List Text → Setup Settings
unfolding read_options
settings_for is_regular_file arguments =
    bind_setup (from_options (new_command_line arguments allowed_options))
      (read_options is_regular_file)
