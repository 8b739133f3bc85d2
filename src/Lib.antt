-- ===== src/Lib.antt =====
-- Verification of the low-latency trading gateway: a client sends orders as frames of 64 bytes
-- over TCP, the gateway gathers the bytes of a connection in a frame parser, decodes each frame
-- and answers it in a session.
--
-- The parts, from the bytes up, all under core/order_entry/include/lltg/order_entry/:
-- - protocol.hpp: Protocol, with a module per message struct. A C++ enumeration is a data type
--   with a constructor `unnamed` for the values without a name, and casts both ways (`*_code`,
--   `*_of`).
-- - codec.hpp: Codec. Words has the little-endian loads and stores, Header the header and its
--   validators, Requests and Responses the encoders and decoders of the eight messages. A span is
--   the list of its bytes, and `none` is an access outside it. An encoder takes the span and
--   returns it as it leaves it; a decoder takes the object it writes to and returns it.
-- - frame_parser.hpp: FrameParser, a circular buffer with positions of type size_t that wrap at
--   2 ^ 64. FrameParser.Valid has the invariant and the contents, FrameParser.Stream the queue of
--   bytes that the parser implements, Run any sequence of calls, Span the bytes that
--   `readable_span` gives, Delivery the way of an order from the encoder through the parser.
-- - session.hpp: Session. `orders_` is an association list without repeated keys (Base.Maps);
--   Session.Ledger says in terms of live orders what a session promises, Session.Refine that it
--   does, and Session.Handles what follows for a whole sequence of messages.
-- - core/SPSC/spsc_ring_buffer.hpp: Spsc, the five queues between the gateway and the matching
--   thread, with a module per class. Spsc.Queue is the bounded queue that each promises,
--   Spsc.Places the arithmetic of the places of a ring, and Spsc.Run any sequence of calls, for
--   every pair of functions that is a queue; Spsc.PowerOfTwo is about the static_assert.
--   Spsc.AtomicV3.Threads cuts the calls of the queue that the gateway uses at every access of a
--   shared position and of the buffer, and Spsc.AtomicV3.Interleaving is about every order of
--   these steps, each store seen by the loads that follow it.
-- - engine_messages.hpp, and encode_response and the answers of matching_thread in
--   core/order_entry/examples/epoll_server.cpp: Engine.
-- - core/order_entry/examples/epoll_server.cpp: Gateway, the state of the event loop with
--   close_conn and accept; Serve is the chunk of a client from `recv` to the commands, Responses
--   the loop over the responses, Loop the dispatch of an event, Matching the loop of
--   matching_thread and the end of main, System both threads on the queues. Valid is the
--   invariant, Open, Close, Refine, Rounds, Chunks, Answers and Safe keep it; Dialogue says what a
--   client is promised, Conversation and Quiet how far it goes, Vacated is about two
--   connections in one slot, and Matched, Answering and Shutdown are about the matching thread. A handler returns the new state or `none`, and `none`
--   stands for an access out of range or a loop that ran out of rounds. The calls on sockets that
--   a client sees are logged in the state; what `send`, `accept` and `recv` answer are arguments.
-- - core/order_entry/examples/epoll_bench_client.cpp: BenchClient, with Arguments about its
--   options and Run about the client against the gateway. Gateway.Ordered, Journey, Acceptance and
--   OrderAnswered follow one order from the client over both threads back to it.
-- Base has the tests on numbers, lists over the native numbers, bytes and bit operations, and the
-- circular window that a queue and the parser share.
--
-- The template argument of a parser or a queue is the argument `capacity`, with the static_asserts
-- and the range of a size_t as the record IsCapacity; the constants of epoll_server.cpp are the
-- record Limits. Loops over a span are recursion on lists, and handle_message and try_parse have
-- none. Two loops have fuel: the one over the messages of a chunk has a round for each frame that
-- the parser can hold and one more, and the one over the responses has a round for each place of
-- the queue; both are proved to end in these rounds. The loop of the matching thread has no end
-- but a shutdown, and is modelled a round at a time.
--
-- Not modelled: the setup of the sockets, of epoll and of the eventfd in epoll_server.cpp, and
-- what is printed; the matching thread at work inside an event of the gateway thread (a turn of
-- System is a whole event or a whole round), its flag `running`, which no code sets to false, and
-- responses that come while the gateway empties the queue; the socket, the clock and the
-- statistics of epoll_bench_client.cpp; the interleaving of two threads in the other atomic queues
-- (there each call is one step), memory orders weaker than sequential consistency, the benchmark
-- core/SPSC/test.cpp, and the structs Heartbeat and Logout of protocol.hpp, which no code uses.
pub mod Base
pub mod Protocol
pub mod Codec
pub mod FrameParser
pub mod Session
pub mod Spsc
pub mod Engine
pub mod Gateway
pub mod BenchClient
