-- ===== src/Lib.antt =====
-- XRNetwork: a room server for extended reality, its console and a console client.
--
-- A service (XRNetworkLobbyService.hpp) starts a thread, which makes a server (nr_server.hpp) and
-- runs its `io_context`. The server accepts connections; each becomes a session (session.hpp,
-- handshake.hpp, participant.hpp), which greets its client, asks for credentials, and then joins
-- the room (room.hpp). From then on what a participant sends is given to the others. Client and
-- server speak in messages of 65536 bytes (XRMessage.hpp) that carry packed structs (protocol.hpp).
--
-- Which file models which:
--   Bytes            nr_base.hpp: swap_endian, swap_byte_vector, is_system_little_endian
--   NrMessage        message.hpp: nr_message; NrMessage/Text has the C functions that it calls
--   MessageNode      message_node.hpp
--   XrMessage        XRMessage.hpp: XRMessage and xr_message_header; a message is a `Block`
--   Protocol         protocol.hpp: heads, structs with their bytes, constructors, readers
--   Session          participant.hpp and session.hpp: the state of one session, its queue of writes
--   Room             room.hpp: network_room. Room/State has the state, Room/Members who comes and
--                    goes, Room/Deliver the deliveries, Room/Queries settings and lookups
--   Connection       handshake.hpp (Connection/Handshake) and the read handler of session.hpp
--                    (Connection/Byte), as functions of the room; Connection/Loop has what may
--                    happen, one handler after the other, as a step relation on rooms
--   Server           nr_server.hpp
--   Lobby            XRNetworkLobbyService.hpp; Lobby/Thread has its thread, one statement after the
--                    other between its user's calls, and Lobby/Console nr_service_console.cpp
--   Hosting          XRNetworkLobbyService.hpp with nr_server.hpp: the service as a whole, its user's
--                    calls and the handlers of its thread in any order
--   Client           nr_client.cpp: chat_client
--   Exchange         a service and a client on one connection, through a whole handshake;
--                    Exchange/Shown adds what the two print
--   Printing         the stream operators of nr_base.hpp, XRMessage.hpp and protocol.hpp
--   ErrorMessages    error_messages.hpp
--   Base             what they share: outcomes, C memory, the layout of packed structs, lists
--   Scenarios        concrete rooms, clients and services
-- The other modules below these hold the proofs, each named for what it is about.
--
-- How the code is modelled. Memory is a function from offsets to bytes, and a buffer a `Block`, a
-- memory with a size; a copy that would leave a buffer or an array ends in `fault out_of_bounds`, a
-- call through a null pointer in `fault null_pointer`, the destruction of a thread that nobody has
-- joined in `fault terminated`, and an exception that leaves the call in `threw`. Words are natural
-- numbers; the width of a member bounds them where they are stored, and casts are written out.
-- Sessions live in a store, by handle, as the program's shared pointers do; the room's set holds
-- handles, ordered by the identifiers in the store, so that a write to a session is seen through
-- every pointer to it. What an operation causes outside is recorded: the deliveries it posts, the
-- slots that signals call, the reads it arms and the writes it begins. All handlers run on the one
-- thread of the `io_context`, hence one after the other, and the mutexes are left out.
--
-- What comes from outside is a parameter (`Env`): the outputs of std::mt19937_64, words of 64 bits,
-- whether a socket takes an option, the address of a peer, and memory that was not initialised. Times
-- are arguments. A session starts with an address: that `remote_endpoint` may throw where the peer
-- is gone already is left out. A session of the store stays there: that it may be destroyed before a
-- delivery that was posted to it runs is left out.
--
-- In Hosting a call of the service's user falls between two handlers, though the program has no lock
-- that would keep them apart, and what the thread does up to `io_context_.run()` is one step, with
-- slots that make no calls. A handler that throws ends the thread, with the room as it left it. A
-- new start leaves handlers of the former server's sessions waiting; a call through the destroyed
-- room ends in `fault dangling`.
--
-- In Exchange a message arrives in one read, and messages arrive in the order in which they were
-- posted. Client/Writes and Session/Writes are about the order in which each end writes.
--
-- Room/Directory is what the room promises, a directory of identifiers with free places, and
-- Room/Refinement relates the room's operations to it.
--
-- Bounds: loops are structural recursion. The fuels are numbers of digits: ten where `sprintf` writes
-- an `int` of 32 bits, and twenty where a stream or
-- std::to_string writes a word of up to 64 bits.
--
-- Connection/Shown and Client/Shown are the handlers of the handshake and of the client's reads with
-- what they print, in which a text without a NUL ends in `fault out_of_bounds`; elsewhere a handler
-- stands without its prints. Connection/Unended and Connection/Opening say when the two agree.
--
-- Not modelled: logs, asio and boost's signals, TLS and certificates, the lines that are printed of
-- a write, a failure or a closed socket, and the C# code of unity_codes.
pub mod Base
pub mod Bytes
pub mod NrMessage
pub mod XrMessage
pub mod Printing
pub mod Protocol
pub mod Session
pub mod Room
pub mod Connection
pub mod MessageNode
pub mod Server
pub mod ErrorMessages
pub mod Exchange
pub mod Lobby
pub mod Client
pub mod Hosting
mod Scenarios
