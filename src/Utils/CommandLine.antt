-- ===== src/Utils/CommandLine.antt =====
-- rpt-utils/src/CommandLineOptionsParser.cpp and include/RpT-Utils/CommandLineOptionsParser.hpp.
-- `argv` without the command name is a list of texts; the options are an association list.
use rp_t_minigames_server.Prelude.{
  Bool, true, false, not, ◌&&◌, List, [], ◌∷◌, ◌++◌, Option, none, some, Text, text, text_eq, leb,
  if◌then◌else◌, length, take, drop,
}

pub data OptionsError : Type 0 where
  options_error invalid_command_line_options missing_option no_value_assigned : Text → OptionsError

pub data Parsed (A : Type 0) : Type 0 where
  parsed : A → Parsed A
  failed : OptionsError → Parsed A

abbrev pub Options : Type 0
Options = List (Text × Option Text)

abbrev pub option_prefix : Text
option_prefix = b'-' ∷ b'-' ∷ []

unfoldable pub is_command_line_option : Text → Bool
is_command_line_option argument = leb 2 (length argument) && text_eq (take 2 argument) option_prefix

abbrev pub option_name_of : Text → Text
option_name_of arg = drop 2 arg

unfoldable pub is_listed : Text → List Text → Bool
is_listed name [] = false
is_listed name (x ∷ xs) = if text_eq x name then true else is_listed name xs

unfoldable pub find_option : Text → Options → Option (Option Text)
find_option name [] = none
find_option name ((n, v) ∷ options) = if text_eq n name then some v else find_option name options

-- `parsed_options_.at(name) = value`, on a name that is there.
unfoldable pub assign_value : Text → Text → Options → Options
assign_value name value [] = []
assign_value name value ((n, v) ∷ options) =
    if text_eq n name then (n, some value) ∷ options else (n, v) ∷ assign_value name value options

-- One argument: the options, and the option that a value may now follow, `argv[i_arg - 1]`.
unfoldable pub parse_argument :
    List Text → Text → Options × Option Text → Parsed (Options × Option Text)
unfolding is_command_line_option is_listed find_option assign_value
parse_argument allowed arg (options, parsing_option) =
    if is_command_line_option arg
    then (let name = option_name_of arg in
        if not (is_listed name allowed)
        then failed
            (invalid_command_line_options (text "Option \"" ++ name ++ text "\" isn't allowed"))
        else elim (find_option name options) [
          | none ↦ parsed (options ++ (name, none) ∷ [], some arg)
          | some v ↦ failed (
              invalid_command_line_options
                (text "Option \"" ++ name ++ text "\" used at least twice"))
        ])
    else elim parsing_option [
      | none ↦ failed (
          invalid_command_line_options
            (text "Value \"" ++ arg ++ text "\" assigned without any option"))
      | some option_arg ↦ parsed (assign_value (option_name_of option_arg) arg options, none)
    ]

unfoldable pub parse_arguments : List Text → List Text → Options × Option Text → Parsed Options
unfolding parse_argument
parse_arguments allowed [] s = parsed s.0
parse_arguments allowed (arg ∷ args) s = elim (parse_argument allowed arg s) [
  | failed e ↦ failed e
  | parsed s' ↦ parse_arguments allowed args s'
]

unfoldable pub new_command_line : List Text → List Text → Parsed Options
unfolding parse_arguments
new_command_line args allowed = parse_arguments allowed args ([], none)

unfoldable pub has : Text → Options → Bool
unfolding find_option
has option options = elim (find_option option options) [ none ↦ false | some v ↦ true ]

unfoldable pub get : Text → Options → Parsed Text
unfolding find_option
get option options = elim (find_option option options) [
  | none ↦ failed (missing_option option)
  | some none ↦ failed (no_value_assigned option)
  | some (some value) ↦ parsed value
]
