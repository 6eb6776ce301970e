-- ===== src/Core/Protocol/Requests.antt =====
-- A request that is written down and parsed.
use rp_t_minigames_server.Prelude.{
  ℕ, ◌^◌, ◌<◌, ◌≡◌, refl, ◌∙◌, ap, List, [], ◌∷◌, Text, text, text_eq,
}
use rp_t_minigames_server.Outcome.{Result, ok, bind}
use rp_t_minigames_server.Numbers.{to_string}
use rp_t_minigames_server.Numbers.Digits.{stoull-to_string}
use rp_t_minigames_server.Utils.TextProtocol.{TextProtocolParser, skip_separators, get_parsed_word}
use rp_t_minigames_server.Utils.TextProtocol.Joined.{
  IsWord, join, to_string-IsWord, new_parser-join,
}
use rp_t_minigames_server.Core.Protocol.{
  RequestParser, Request, parse_ruid, new_request_parser, read_request, too_short,
  parse_service_request,
}

keyword : IsWord (text "REQUEST")
unfolding text
keyword = (refl, (refl, (refl, (refl, (refl, (refl, (refl, tt)))))))

-- The text of a request.
abbrev pub written : Request → Text
written r =
    join (text "REQUEST" ∷ to_string r.request_uid ∷ r.intended_service_name ∷ []) r.command_data

abbrev with_words : Request → TextProtocolParser
with_words r = record {
  parsed_words = text "REQUEST" ∷ to_string r.request_uid ∷ r.intended_service_name ∷ [];
  unparsed_words = skip_separators r.command_data;
}

parse_ruid-to_string : (n : ℕ) → n < 2 ^ 64 → parse_ruid (to_string n) ≡ ok n
unfolding parse_ruid
parse_ruid-to_string n h = rw (parse_ruid, stoull-to_string n h) refl

with_words-new_request_parser :
    (r : Request)
    → r.request_uid < 2 ^ 64
    → IsWord r.intended_service_name
    → new_request_parser (written r)
      ≡ ok (record { parser = with_words r; parsed_ruid = r.request_uid })
unfolding new_request_parser get_parsed_word
with_words-new_request_parser r h named =
    let words : List Text =
      text "REQUEST" ∷ to_string r.request_uid ∷ r.intended_service_name ∷ [] in
    rw
      (new_parser-join words r.command_data
        (keyword, (to_string-IsWord r.request_uid, (named, tt))))
      (rw (parse_ruid-to_string r.request_uid h) refl)

-- The request that arrives.
abbrev pub received : Request → Request
received r = record r { command_data = skip_separators r.command_data }

-- A request that is written as the word REQUEST, its identifier in decimal, the name of a service and
-- the command's text, each followed by a space, is parsed back as that request, without the spaces in
-- front of the command; the identifier fits in 64 bits, and the name is a word.
pub parse_service_request-written :
    (r : Request)
    → r.request_uid < 2 ^ 64
    → IsWord r.intended_service_name
    → parse_service_request (written r) ≡ ok (received r)
unfolding parse_service_request get_parsed_word text_eq text
parse_service_request-written r h named =
    ap (λ (x : Result RequestParser). too_short (written r) (bind x (read_request (written r))))
      (with_words-new_request_parser r h named)
    ∙ refl
