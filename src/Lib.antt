-- ===== src/Lib.antt =====
-- A model of rust-streaming-quotes: a server that makes up stock quotes and streams them over
-- UDP, and the client that subscribes to them with one TCP command and keeps the subscription
-- alive with pings.
--
-- The parts and their files:
--
-- - Core stands for the crate quote-core. Core/Protocol is quote-core/src/protocol.rs
--   (parse_command, format_stream_command, format_stream_command_line), Core/Error is error.rs,
--   Core/Tickers is tickers.rs (read_tickers, read_tickers_from_path, normalize_line,
--   parse_tickers_csv), Core/Types is types.rs (StockQuote and its Display), Core/Wire is wire.rs
--   (UdpPacketV1, encode_v1, decode), Core/Constants is constants.rs.
-- - Server stands for the crate quote-server. Server/Hub is quote-server/src/hub.rs (Hub,
--   add_client, remove_client, broadcast), Server/Ping is udp_ping.rs (run_udp_ping_listener),
--   Server/Session is session.rs (run_session and what it calls), Server/Tcp/Accept and
--   Server/Tcp/Conn are tcp.rs (run_tcp_listener and reap_finished_sessions, extract_command and
--   handle_conn), Server/Generator is generator.rs (QuoteGenerator), Server/Load is config.rs and
--   load_server_tickers_from_args of main.rs, Server/Main is main.rs (main and the thread of the
--   generator). Server/System has the connections and the generator as threads that run
--   interleaved around the hub.
-- - Client stands for the crate quote-client. Client/Tcp is quote-client/src/tcp.rs
--   (send_stream_command), Client/Udp/Receiver and Client/Udp/Ping are udp.rs (run_udp_receiver,
--   run_ping), Client/Args is cli.rs and tickers.rs (Args::validate, load_tickers), Client/Main
--   is main.rs (main).
-- - Base, Text, TextSet and Assoc are what the parts share: Boolean tests, results and lists; the
--   operations of str and String; the ordered sets of strings; association lists.
--
-- How they interact: the client formats a command, which a connection of the server parses and
-- answers; the server registers the client at the hub, which makes it a bounded channel; the
-- quotes of the generator go through Hub.broadcast into the channels; the session of a connection
-- takes the quotes of its channel, sends those that its client asked for, and ends when the map
-- of last pings, which the ping listener fills, says that the client has gone; the client shows
-- the quotes and pings the address from which the first of them came. Some modules are about two
-- parts at once: Client/Tcp/Agreement and Client/Main/Subscribed about the client and a
-- connection, Client/Udp/Pace about the pings and a session, Client/Udp/Delivered about the
-- datagrams of a session and the client that shows them (and, in FromGenerator, about the
-- generator and the hub before them), Server/Tcp/Conn/Released about a connection and the
-- broadcast, Server/Tcp/Conn/Steps about handle_conn and the steps of a thread,
-- Server/Main/Rounds about the generator and the mailboxes.
--
-- Representation. A String is the list of its code points, a datagram or another sequence of
-- bytes a list of numbers, an i64 an integer, an unsigned integer a natural number. The counters
-- of the hub, the error counter of a session and the next client number wrap at 2 ^ 64. Instant
-- and Duration are numbers of nanoseconds. A HashMap is an association list, a BTreeSet and a
-- HashSet are lists. A Sender and its Receiver name a channel of a store by its number, a
-- JoinHandle is the number of its thread. A mutex or a lock whose poison is ignored is a plain
-- field, each access to it is one step. Errors that the program passes on by ? are values of
-- Result; log lines are left out.
--
-- Interleavings. Server/System is a step relation: a connection (ConnPc, Move) and the generator
-- (GenPc, GenMove) take one step each for every access of the registry and every operation on a
-- channel, in any order (Step, Reach). The memory that they share is the hub and the counter of
-- client numbers; `started` counts the commands that were parsed and is not in the program, it
-- says how often fetch_add was called, whose result wraps at 2 ^ 64. Server/System/Order reads
-- three logs off the steps, which the program does not keep: the quotes whose broadcast has
-- started (history), those among them that came behind the registration of a channel (since), and
-- what was received from a channel (received). Elsewhere what other threads do in between is an
-- argument (meanwhile, the rounds). Core/Tickers/AsSet has the tickers of a text as a quotient of
-- lists, which forgets order and repetition.
--
-- Loops: the loops over lists are structural recursion. The loops that run until they are stopped
-- (run_session, run_udp_ping_listener, run_tcp_listener, run_udp_receiver, run_ping) take the
-- list of what their rounds meet: the flag, the clock, what was received, what other threads
-- changed in between. Such a run ends with the status running if the list is used up, so a
-- theorem for all lists is a theorem on every prefix of every run. Two loops have fuel:
-- reap_finished_sessions as many rounds as there are handles, since each round joins a handle or
-- passes one, and the sleep of run_ping as many rounds as its interval has nanoseconds, since
-- each step is at least one long.
--
-- Code outside of the repository is a parameter: Core.Net.Net is the text form and the equality
-- of std::net::SocketAddr, Core.Wire.Postcard the crate postcard, Server.Channel.Channels the
-- bounded channels of the crate crossbeam-channel, os_send the results of UdpSocket::send_to,
-- FileSystem a function from paths to readers, Draws the random numbers of the crate rand and the
-- arithmetic of floats, Client.Udp.Ping.Clock how long the sends and the calls of
-- std::thread::sleep of the keep-alive thread take (a sleep is never shorter than it is told),
-- socket_addr the function SocketAddr::new. Core/Loopback, Core/PlainPost and
-- Server/SimpleChannels are concrete instances, on which the tests in Core/Tests, Server/Tests,
-- Server/ConnTests, Server/SystemTests, Server/MainTests, Client/Tests, Client/MainTests and
-- Client/StreamTests run.
--
-- Not modelled: the declarations of the command lines, the options and timeouts that are set on
-- sockets, threads and signal handlers as such, logging but for the statistics of the broadcasts.
-- The map of last pings is not part of the memory of Server/System; the ping listener and a
-- session see what the other has done to it as an argument.
mod Base
pub mod Text
pub mod TextSet
pub mod Assoc
pub mod Core
pub mod Server
pub mod Client
