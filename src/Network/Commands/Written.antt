-- ===== src/Network/Commands/Written.antt =====
-- A login that is written down and parsed.
use rp_t_minigames_server.Prelude.{ℕ, ◌^◌, ◌<◌, ◌≡◌, refl, ap, [], ◌∷◌, ◌++◌, Text, text}
use rp_t_minigames_server.Outcome.{ok}
use rp_t_minigames_server.Numbers.{to_string}
use rp_t_minigames_server.Numbers.Digits.{stoull-to_string}
use rp_t_minigames_server.Utils.TextProtocol.{space, skip_separators, get_parsed_word}
use rp_t_minigames_server.Utils.TextProtocol.Joined.{
  IsWord, join, to_string-IsWord, skip_separators-word, new_parser-join,
}
use rp_t_minigames_server.Network.Commands.{parse_rptl, parse_actor_uid, parse_handshake}

-- What a client sends to log in, and the arguments in it.
abbrev pub login_arguments : ℕ → Text → Text
login_arguments uid name = join (to_string uid ∷ name ∷ []) []

abbrev pub login : ℕ → Text → Text
login uid name = join (text "LOGIN" ∷ []) (login_arguments uid name)

keyword : IsWord (text "LOGIN")
unfolding text
keyword = (refl, (refl, (refl, (refl, (refl, tt)))))

parse_rptl-login :
    (uid : ℕ) (name : Text)
    → parse_rptl (login uid name) ≡ ok (text "LOGIN", login_arguments uid name)
unfolding parse_rptl get_parsed_word
parse_rptl-login uid name =
    rw (new_parser-join (text "LOGIN" ∷ []) (login_arguments uid name) (keyword, tt)) (
      ap (λ (s : Text). ok (text "LOGIN", s))
        (skip_separators-word (to_string uid) (space ∷ name ++ space ∷ []) (to_string-IsWord uid)))

parse_actor_uid-to_string : (n : ℕ) → n < 2 ^ 64 → parse_actor_uid (to_string n) ≡ ok n
parse_actor_uid-to_string n h = rw (parse_actor_uid, stoull-to_string n h) refl

parse_handshake-login :
    (uid : ℕ) (name : Text)
    → uid < 2 ^ 64
    → IsWord name
    → parse_handshake (login_arguments uid name) ≡ ok (uid, name)
unfolding parse_handshake get_parsed_word skip_separators
parse_handshake-login uid name h named =
    rw (new_parser-join (to_string uid ∷ name ∷ []) [] (to_string-IsWord uid, (named, tt)))
      (rw (parse_actor_uid-to_string uid h) refl)

-- A login that is written as the word LOGIN, an identifier in decimal and a name, each followed by a
-- space, is parsed back: the command is LOGIN with these arguments, and the arguments are parsed as
-- that identifier and that name. The identifier fits in 64 bits, and the name is a word.
pub parse_rptl-parse_handshake-login :
    (uid : ℕ) (name : Text)
    → uid < 2 ^ 64
    → IsWord name
    → (parse_rptl (login uid name) ≡ ok (text "LOGIN", login_arguments uid name))
      × (parse_handshake (login_arguments uid name) ≡ ok (uid, name))
parse_rptl-parse_handshake-login uid name h named =
    (parse_rptl-login uid name, parse_handshake-login uid name h named)
