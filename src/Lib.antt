-- ===== src/Lib.antt =====
-- A model of the chat program: a server and a console client that talk over TCP, in packets that
-- carry JSON.
-- The server's event loop (server/src/application/Server.cpp) accepts connections and hands received
-- bytes to the packet parser; each packet becomes a task of a thread pool, and a task runs the
-- handler of the packet's type. The handlers read and write two managers, of the clients and of the
-- rooms, and send packets to the client or to the members of a room. The client's services send a
-- request and wait for the response, and a loop shows the messages that arrive.
--
-- Parts of the source, and the files that model them:
--   * Prelude, Map, Members: what the parts share. Numbers and their tests, lists, bytes, `int`s
--     with their conversion to `size_t`, maps with unique keys, sets as lists. Numerals has the
--     spaces and the `int`s of the standard library's readers (std::stoi, the extraction of a
--     number).
--   * Json: nlohmann::json (server/include/vendor), a parameter: a record with one field for each
--     call that the program makes. A call that may throw returns a `Result`.
--   * Protocol: server/include/network/Protocol.h. `to_code` and `of_code` are the numbers of the
--     packet types, and `wire` the bytes of a packet in network order.
--   * Server/Parser: PacketReceiver::parsePackets (server/src/network/PacketReceiver.cpp). The loop
--     has fuel; one more than the length of the buffer is enough, since a round removes four bytes
--     or more. A packet whose declared size does not fit in a `Packet` ends the loop as `overflow`:
--     the source has no such test, and copies past the object there. `feed` is a series of
--     receptions.
--   * Server/Sender: PacketSender::send (server/src/network/PacketSender.cpp), over a list of what
--     the calls of ::send return.
--   * Server/Clients: ClientManager (server/src/domain/client/ClientManager.cpp).
--   * Server/Room and Server/Rooms: Room and RoomManager (server/src/domain/room). Random numbers
--     are a parameter; the search for a code tries a hundred of them, as the source does.
--   * Server/State: what the handlers use of Server (server/src/application/Server.cpp). `outbox`
--     lists the packets that are handed to PacketSender::send. A handler is an action of a state and
--     exception monad.
--   * Server/Handlers: the packet handlers (server/src/domain/handler). Handlers/Nickname,
--     Handlers/Message, Handlers/Rooms and Handlers/Dispatch stand for NicknameHandler,
--     MessageHandler, RoomHandler and PacketHandler.
--   * Server/Events: Server::handleEvent, ConnectionManager, PacketReceiver::receive and
--     Listener::acceptConnection, with what the kernel answers as arguments; Server/Events/Reach has
--     the steps of a server whose tasks run one at a time: each event and each task is taken whole.
--     (Server/Threads/Running has the steps of the server whose tasks run at the same time.)
--   * Server/Threads: the same handlers as the worker threads run them, a series of steps with one
--     for each call of a manager or of PacketSender (Threads/Handlers); `interleave` runs any number
--     of them in a given order of turns. Threads/Alone compares a thread that nothing comes between
--     with the handler of Server/Handlers, which keeps the two models of a handler together;
--     Threads/Running puts the threads beside the event loop, with the queue between them, and
--     Threads/Serial has those runs of it in which no two tasks overlap; Threads/Safe,
--     Threads/Joined and Threads/Named are about several threads.
--   * Server/Listener and Server/Epoll: Listener (server/src/network/Listener.cpp) and EpollManager
--     (server/src/io/EpollManager.cpp), with what the socket calls and epoll answer as arguments.
--     The interest list of the kernel is part of EpollManager's state, and the descriptors that are
--     closed are listed in order.
--   * Server/Program: the life of a server, Server::Server, Server::run and Server::~Server.
--     EpollManager::wait takes a list of what epoll_wait returns, so it goes on (`waiting`) at the
--     end of the list.
--   * Server/Pool: ThreadPool and SafeQueue (server/src/concurrency/ThreadPool.cpp,
--     server/include/containers/SafeQueue.h), run by a list of the actions of its threads.
--   * Server/Env: Env (server/src/config/Env.cpp), from the lines of the file.
--   * Server/Logger, Server/Utils and Client/Logger: the loggers (server/src/logger/Logger.cpp,
--     client/src/common/logger.cpp) and utils::generateRandomCode (server/src/common/Utils.cpp). The
--     loggers and the random code stand alone: no other definition logs.
--   * Client/Network: INetworkClient and NetworkClient (client/src/network/NetworkClient.cpp). The
--     services take the interface, a record of operations and laws, as a parameter;
--     Client/Network/Interface fills it.
--   * Client/Packets: the client's PacketHandler (client/src/network/PacketHandler.cpp) and Message
--     (client/src/core/Message.cpp).
--   * Client/Connection, Client/Rooms and Client/Chat: ConnectionService, RoomService and
--     ChatService (client/src/core). A call returns, or overflows a packet, or raises an exception
--     (Client/Services). The receive loop has fuel; one more than the bytes that are still to come
--     is enough, since each reception takes some.
--   * Client/Ui: the console program (client/src/ui). A part of it returns or stops the program, by
--     an exception that is not caught, a thread object that is replaced while its thread runs, or
--     another undefined behaviour (`Run`, `Stop`). Ui/Streams has std::cin, std::cout and std::cerr,
--     Ui/Display ConsoleUI, and Ui/ChatClient ChatClient.
--   * Client/Ui/Receiver: the thread of ChatService::StartReceiving. The join runs it to its end in
--     `join_rounds`, twice the bytes that are still to come and three: each reception takes a byte
--     at least, a round has two steps, and the start and the end are steps too.
--   * Client/Ui/Session: Lobby::StartChatSession and Lobby::InputLoop, two threads that take their
--     turns from a list; a session whose turns end before its loop does is `out_of_rounds`, and so
--     is the menu when its list of rounds ends. The theorems on them take any list.
--   * Client/Ui/Lobby: Lobby (client/src/ui/Lobby.cpp), with the menu in Lobby/Menu.
--   * Tests: a small JSON library and the theorems at concrete inputs.
--
-- The invariant `Inv` (Server/State/Invariant) says of a server: the nickname of each authenticated
-- client is registered and is no other authenticated client's; a room stands under its own code, has
-- no member twice, and there are at most a hundred rooms; a client that has a room code is a member
-- of that room; and each packet that was sent has a payload of at most 1,024 bytes, as many as its
-- header says.
--
-- Machine integers: sizes in a header are taken modulo 2^16 where the source stores them in a
-- `uint16_t`; a room's limit is an `int` that is converted to 64 bits for its comparison.
-- Descriptors are natural numbers, since the ones in use are not negative. Maps that the source
-- iterates over (an unordered_map) are association lists; their order is that of the first
-- insertions.
--
-- Not modelled: the use of a ClientInfo that a thread still points to when the event loop has
-- removed the client, which is undefined behaviour (Server/Threads reads the fields in the step that
-- gets it, and a write to a client that is gone does nothing); in the same way the use of a Room
-- that another thread has erased behind getRoom, which has no members here; a call of ::recv or a
-- join of a thread that waits for ever, since a client's connection is given as all that it delivers
-- before it ends or fails; a step inside of one call under a lock; what follows an undefined
-- behaviour, which is the result `none` of an event, and `undefined` or a `Stop` in the programs;
-- the lines that are logged and what the client's services print; the JSON library
-- (server/include/vendor, client/include/vendor); the entry points (server/src/main.cpp,
-- client/src/main.cpp), which make one object and run it.
pub mod Prelude
pub mod Map
pub mod Members
pub mod Json
pub mod Numerals
pub mod Protocol
pub mod Server
pub mod Client
mod Tests
