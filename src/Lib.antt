-- ===== src/Lib.antt =====
-- Verification of RpT-Minigames-Server, a server for three two-player board games.
--
-- The program's parts and the files that model them:
-- - rpt-utils: `Utils/HandlingResult`, `Utils/TextProtocol` (TextProtocolParser; `Words` has the
--   splitter that it is compared with, `Joined` the commands that are put together) and
--   `Utils/CommandLine` (CommandLineOptionsParser).
-- - rpt-core: `Core/Timer` (Timer, ServiceContext), `Core/Service` (Service, ServiceEvent) and
--   `Core/Protocol` (ServiceEventRequestProtocol), `Core/Executor` (Executor, InputOutputInterface) and
--   `Core/InputEvent`. A service keeps a queue of events whose identifiers come from a counter that all
--   services share; the protocol parses a request (`Core/Protocol/Requests` writes one down), calls the
--   service it names, and polls the service whose next event has the lowest identifier. The executor waits for an
--   input event, hands it to its visitor, begins the timers that wait, runs the loop's routine and
--   outputs the events of the services, until the interface is closed.
-- - minigames-services, the games: `Board/Grid`, `Board/Axis` (AxisIterator), `Board/Game` (BoardGame),
--   `Board/Acores`, `Board/Bermudes`, `Board/Canaries`, and `Board/Any` for the virtual calls. A game
--   checks a move against its rules on an iterator over the axis between two squares, writes the grid,
--   and keeps a counter of pawns for each player.
-- - minigames-services, the services: `Services/Minigame`, `Services/Lobby` and `Services/Chat`. The
--   lobby seats two actors, counts who is ready, and starts the game when its countdown triggers; the
--   minigame service hands the requests of the player who has the turn to the game.
-- - rpt-network: `Network/Backend` (NetworkBackend, MessagesQueueView), the clients, the actors that
--   they log in as, and the messages queued for them; `Network/Commands`, the parsers of the clients'
--   commands; `Network/Pipelines`, clients that come and go; `Network/Handlers`, what each message
--   does; `Network/Websocket` (BeastWebsocketBackendBase), which merges the queues into one, writes one
--   message at a time, and turns the completions of Asio into input events; `Network/Waiting`, its wait
--   for such an event, and its end.
-- - minigames-server: `Server/Options` (the command line of Main.cpp), `Server` (the services on one
--   state, the handlers given to the executor and the loop's routine), `Server/Entry` (main and its exit
--   codes), and `Server/Websockets`, the websocket backend as the executor's interface.
--
-- Interfaces. `Core/Executor` takes its I/O interface and its timers as the records `InputOutput` and
-- `PendingTimers`, and relies on the laws `Queues` of `Core/Executor/Events`, which `Server/Events`
-- proves of the three services. `Server` takes its network as the record `Network`, which
-- `Server/Websockets` fills.
--
-- How the code is written down. `Outcome` has the exceptions as values and the calls on an object as
-- functions from its state to a result and the next state: what a call has changed when it throws stays
-- changed. `Numbers` and `Messages` have what the code uses of std::to_string, std::stoi, std::stoull
-- and what(); `Maps` has the maps with 64-bit keys as association lists, so where the source iterates
-- over a map the order is that of the list. Machine integers keep their wrap-around where the source
-- counts: pawns and ready players modulo 2^32, identifiers modulo 2^64. The coordinates are integers
-- without bound, while the source has `int`. A text is the list of its bytes.
--
-- Fuel. The scan of `Board/Axis` runs on the number of lines plus the number of columns plus one, which is
-- more than the squares of any axis. The walk of `Board/Bermudes` runs on the length of the iterator's
-- axis plus one, since each round moves forward. The executor's loop over service events runs on the
-- number of events queued plus one, since each round takes one event. The executor's main loop
-- runs for a number of rounds that the caller chooses, and the wait for an event ends with the list of
-- completions. What outruns its fuel ends in the error `unfinished`, which no handler catches.
--
-- Not modelled: logging; the generated configuration; what Boost.Asio and Boost.Beast do (the operations
-- that are started are kept in order, and their completions are given as a list); the TLS handshake of
-- the safe backend and the registration of signals. The construction of the network backend and
-- boost::filesystem::is_regular_file are parameters of `Server/Entry` and `Server/Options`.
pub mod Prelude
pub mod Outcome
pub mod Numbers
pub mod Messages
pub mod Maps
pub mod Utils
pub mod Core
pub mod Board
pub mod Services
pub mod Network
pub mod Server
pub mod Tests
