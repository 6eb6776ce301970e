-- ===== src/Utils/TextProtocol.antt =====
-- rpt-utils/src/TextProtocolParser.cpp and include/RpT-Utils/TextProtocolParser.hpp. A `string_view`
-- is the bytes that it shows; an iterator is its index, with the text from there on.
pub mod Words
pub mod Joined
use rp_t_minigames_server.Prelude.{
  ℕ, ◌+◌, List, [], ◌∷◌, ◌++◌, Text, ltb, ◌==◌, if◌then◌else◌, length, take, drop, get_elem?, none,
  some,
}
use rp_t_minigames_server.Outcome.{Result, ok, err, not_enough_words, parsed_index_out_of_range}

-- The variables of the constructor's first loop.
pub record WordScan : Type 0 where
  pub parsed_words : List Text
  pub word_begin_i : ℕ
  pub word_length : ℕ
  pub char_i : ℕ

abbrev pub space : ℕ
space = 32

-- `protocol_command.substr(word_begin_i, word_length)`, pushed.
unfoldable pub push_word : Text → WordScan → WordScan
push_word command s = record s {
  parsed_words = s.parsed_words ++ take s.word_length (drop s.word_begin_i command) ∷ [];
  word_length = 0;
}

-- One round, at a character.
unfoldable pub scan_char : Text → ℕ → WordScan → WordScan
unfolding push_word
scan_char command c s =
    let s' =
      if c == space then if s.word_length == 0 then s else push_word command s else record s {
        word_begin_i = if s.word_length == 0 then s.char_i else s.word_begin_i;
        word_length = s.word_length + 1;
      } in
    record s' { char_i = s.char_i + 1 }

-- The loop, with the characters that it leaves.
unfoldable pub scan_words : Text → ℕ → Text → WordScan → WordScan × Text
unfolding scan_char
scan_words command expected [] s = (s, [])
scan_words command expected (c ∷ rest) s =
    if ltb (length s.parsed_words) expected
    then scan_words command expected rest (scan_char command c s)
    else (s, c ∷ rest)

unfoldable pub skip_separators : Text → Text
skip_separators [] = []
skip_separators (c ∷ rest) = if c == space then skip_separators rest else c ∷ rest

pub record TextProtocolParser : Type 0 where
  pub parsed_words : List Text
  pub unparsed_words : Text

unfoldable pub new_parser : Text → ℕ → Result TextProtocolParser
unfolding scan_words skip_separators
new_parser command expected =
    let (s, rest) =
      scan_words command expected command
        (record { parsed_words = []; word_begin_i = 0; word_length = 0; char_i = 0 }) in
    let s' = if s.word_length == 0 then s else push_word command s in
    if ltb (length s'.parsed_words) expected
    then err (not_enough_words (length s'.parsed_words) expected)
    else ok (record { parsed_words = s'.parsed_words; unparsed_words = skip_separators rest })

unfoldable pub get_parsed_word : ℕ → TextProtocolParser → Result Text
get_parsed_word i p = elim (get_elem? p.parsed_words i) [
  | none ↦ err (parsed_index_out_of_range i (length p.parsed_words))
  | some word ↦ ok word
]
