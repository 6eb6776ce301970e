-- ===== src/Network/Commands.antt =====
-- rpt-network/src/NetworkBackend.cpp, the parsers of the commands of a client.
pub mod Written
use rp_t_minigames_server.Prelude.{ℕ, ◌++◌, Text, text, is_empty}
use rp_t_minigames_server.Outcome.{
  Result, ok, err, Error, bad_client_message, invalid_argument, bind, check,
}
use rp_t_minigames_server.Numbers.{stoull}
use rp_t_minigames_server.Utils.TextProtocol.{new_parser, get_parsed_word}

-- `RptlCommandParser`: the command's name and arguments.
unfoldable pub parse_rptl : Text → Result (Text × Text)
parse_rptl rptl_command = bind (new_parser rptl_command 1) (λ parser.
    bind (get_parsed_word 0 parser)
      (λ invoked_command_name. ok (invoked_command_name, parser.unparsed_words)))

abbrev pub too_many_arguments : Text → Error
too_many_arguments rptl_command =
    bad_client_message (text "Too many arguments given to command: " ++ rptl_command)

abbrev pub parse_actor_uid : Text → Result ℕ
parse_actor_uid actor_uid_copy = elim (stoull actor_uid_copy) [
  | ok n ↦ ok n
  | err (invalid_argument m) ↦
      err (bad_client_message (text "Actor UID must be an unsigned integer of 64 bits"))
  | err e ↦ err e
]

-- `HandshakeParser`.
unfoldable pub parse_handshake : Text → Result (ℕ × Text)
parse_handshake arguments = bind (new_parser arguments 2) (λ parser.
    bind (check (is_empty parser.unparsed_words) (too_many_arguments (text "LOGIN"))) (λ _.
      bind (get_parsed_word 0 parser) (λ uid_word.
        bind (parse_actor_uid uid_word)
          (λ uid. bind (get_parsed_word 1 parser) (λ name. ok (uid, name))))))
