-- ===== src/Tests/Requests.antt =====
-- A login, and a request to the chat of a server.
use rp_t_minigames_server.Prelude.{◌≡◌, ◌≢◌, some, refl, [], ◌∷◌, ◌<◌, ◌^◌, Text, text, arith}
use rp_t_minigames_server.Outcome.{ok}
use rp_t_minigames_server.Utils.TextProtocol.{skip_separators, new_parser}
use rp_t_minigames_server.Utils.TextProtocol.Words.{parsed_by_words, new_parser-parsed_by_words}
use rp_t_minigames_server.Utils.TextProtocol.Joined.{IsWord, join, new_parser-join}
use rp_t_minigames_server.Core.Protocol.{
  Request, RunningService, parse_service_request, handle_service_request,
}
use rp_t_minigames_server.Core.Protocol.Requests.{written, received, parse_service_request-written}
use rp_t_minigames_server.Core.Protocol.Answers.{
  Finds, first, later, Answered, handle_service_request-Answered,
}
use rp_t_minigames_server.Network.Commands.{parse_rptl, parse_handshake}
use rp_t_minigames_server.Network.Commands.Written.{
  login, login_arguments, parse_rptl-parse_handshake-login,
}
use rp_t_minigames_server.Server.Events.{protocol_of}
use rp_t_minigames_server.Server.{Server, services, chat_service, minigame_service}
use rp_t_minigames_server.Server.Websockets.{Scheduled, websocket_network}
use rp_t_minigames_server.Tests.Server.{started}

abbrev command : Text
command = text "LOGIN 7 Ann"

new_parser-parsed_by_words_example : new_parser command 2 ≡ parsed_by_words command 2
new_parser-parsed_by_words_example = new_parser-parsed_by_words command 2

chat-IsWord : IsWord (text "Chat")
unfolding text
chat-IsWord = (refl, (refl, (refl, (refl, tt))))

new_parser-join_example :
    new_parser (join (text "Chat" ∷ text "Chat" ∷ []) (text "  hi all")) 2
    ≡ ok (record { parsed_words = text "Chat" ∷ text "Chat" ∷ []; unparsed_words = text "hi all" })
unfolding text skip_separators
new_parser-join_example =
    new_parser-join (text "Chat" ∷ text "Chat" ∷ []) (text "  hi all")
      (chat-IsWord, (chat-IsWord, tt))

abbrev greeting : Request
greeting = record {
  request_uid = 7;
  intended_service_name = text "Chat";
  command_data = text " hi all";
}

fits : 7 < 2 ^ 64
fits = omega arith

parse_service_request-written_example :
    parse_service_request (written greeting) ≡ ok (received greeting)
parse_service_request-written_example = parse_service_request-written greeting fits chat-IsWord

-- A request to the second of the three services.
abbrev pass : Request
pass = record {
  request_uid = 8;
  intended_service_name = text "Minigame";
  command_data = text "END";
}

minigame-IsWord : IsWord (text "Minigame")
unfolding text
minigame-IsWord = (refl, (refl, (refl, (refl, (refl, (refl, (refl, (refl, tt))))))))

abbrev minigame : RunningService (Server Scheduled)
minigame = (minigame_service websocket_network).running

chat-apart : text "Chat" ≢ text "Minigame"
unfolding text
chat-apart h = cc

minigame-Finds : Finds (text "Minigame") (protocol_of websocket_network) (some minigame)
unfolding services chat_service minigame_service
minigame-Finds = later _ _ (some minigame) chat-apart (first minigame _ refl)

handle_service_request-Answered_example :
    Answered 4 pass started
      (some minigame)
      (handle_service_request (protocol_of websocket_network) 4 (written pass) started)
handle_service_request-Answered_example =
    handle_service_request-Answered (protocol_of websocket_network) 4 pass started (some minigame)
      (omega arith) minigame-IsWord minigame-Finds

ann-IsWord : IsWord (text "Ann")
unfolding text
ann-IsWord = (refl, (refl, (refl, tt)))

parse_rptl-parse_handshake-login_example :
    (parse_rptl (login 7 (text "Ann")) ≡ ok (text "LOGIN", login_arguments 7 (text "Ann")))
    × (parse_handshake (login_arguments 7 (text "Ann")) ≡ ok (7, text "Ann"))
parse_rptl-parse_handshake-login_example =
    parse_rptl-parse_handshake-login 7 (text "Ann") fits ann-IsWord
