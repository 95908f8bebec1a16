-- ===== src/Lib.antt =====
-- A key-value server that speaks the Redis protocol in front of a store on a flash device.
--
-- The program. A server process (poll_server.cpp, multi_server.cpp) reads bytes of a connection into
-- the input buffer of its `client` and calls client_exec_commands (client.cc). That cuts commands
-- out of the buffer (client_read_command, client_parse_telnet_command) and runs each with
-- exec_command (exec.cc), which writes replies to the output buffer and makes requests to the store
-- (request.cc). The store calls end_req when a request is done; finished reads go through a queue
-- back to the server, which writes their replies and frees them. queue.c, priority_queue.c and
-- lockfreeq.h are containers; udp_server.cpp takes requests in datagrams; command.c is an earlier
-- parser that keeps a half-read request between two packets and that the Makefile no longer builds.
--
-- The files.
--   Base          shared names: Boolean tests on numbers, lists, memory as a map from addresses,
--                 32-bit and 64-bit patterns, masks, and atoi and sprintf on byte lists.
--   Client        server.h (client_t) and client.cc: connection, output buffer, flush, errors,
--                 client_append_arg. A C array is a map from offsets to bytes; an argument points
--                 into the input buffer or to a literal.
--   Scan, Telnet, Reader
--                 client.cc: what the parsers share, client_parse_telnet_command and
--                 client_read_command, a function for each nested loop or branch.
--   Session, Exec, Dispatch
--                 exec.cc: a command is a step on a connection and the global state; exec_command,
--                 and client_exec_commands of client.cc.
--   Request       request.cc and request.h.
--   Util          util.cc: atop and pattern_limits.
--   Queue, PriorityQueue, Spsc
--                 queue.c, priority_queue.c and lockfreeq.h.
--   Command       command.c: GetLength, GetType, GetKey, GetValue, GetRequest, master_GetRequest,
--                 udp_GetRequest; Command.Send has the functions that send replies.
--   UdpServer     udp_server.cpp: the loop that receives datagrams, the key of a sender, and
--                 request_handler, which hands the datagrams to udp_GetRequest.
--   HashMap       hashMap.cc, whose calls in exec.cc are in comments; std::hash is a parameter.
--   Mpmc          lfmpmc.h: the ring for many threads that finished requests go through, as steps of
--                 threads on its cells, with the history of a run, and as functions of one thread.
--   Server        poll_server.cpp and multi_server.cpp: on_read, the calls of it for a connection,
--                 the handler of finished requests (Server.Handler, with the copies of it in
--                 poll_server_buse.cpp and poll_server_busefs.cpp), the rounds of the two functions
--                 polling_worker over their tables of connections (Server.Poll, Server.MultiPoll),
--                 and the compaction of a table (Server.Table). Server.MultiPoll.Live gives the
--                 rounds of multi_server.cpp the code of their connections.
-- Each has its lemmas and tests in child modules.
--
-- What is not under the sources is a parameter: libmemio and the store (record Library of Request:
-- the tags that allocations return, and which requests are taken), the answers of write(2) (Answer
-- of Client) and of recv(2) (Recv of Server), the addresses that malloc gives (an argument of
-- add_rear), what an uninitialised variable of client_read_command and the missing result of on_read
-- hold (`garbage`), the structures and alloc_req of command.c, and what poll and
-- accept answer (Events of Server.Poll, Polled of Server.MultiPoll), and what a datagram brings
-- (Arrival of UdpServer). The rounds of polling_worker are defined for any functions client_new,
-- on_read and close (record Connections of Server.Poll); on_read may also not return.
--
-- At some places where the code leaves its arrays the model stops, with `none` or a fault: a value
-- longer than its block in exec_set, a negative length in command.c, a read through a pointer to
-- nothing in queue.c.
--
-- Bounds and fuel. The loop of the telnet parser has a round for each byte that is left, since each
-- round moves on; that of client_exec_commands one more than the bytes in the buffer, since a command
-- that is read takes one off; that of PQ_pop one more than the length of the heap, since the index
-- grows; that of destroy_queue one for each node; that of command.c two more than the packet's
-- bytes, since a new request takes one; that over the polled connections one more than their number.
-- The loop of hashMapInsert is given any fuel, for its body changes nothing.
--
-- The counters of Mpmc wrap at 2^64 in the model; what is shown of its runs is for fewer than 2^63
-- elements. on_read and the handler of finished requests write to a connection's output in two
-- threads, and nothing in the code keeps them apart: each is modelled alone, their interleavings are
-- not.
--
-- Not modelled: the sockets, threads and settings that the servers begin with, the worker threads of
-- multi_server.cpp, to which no connection is handed, the clock and the messages on the console, the
-- bounds of the two buffers, which the code does not check, failure of malloc, match.cc (a copy from
-- Redis), remove_directory of util.cc, which is not compiled, and the headers of RocksDB.
pub mod Base
pub mod Queue
pub mod Spsc
pub mod PriorityQueue
pub mod Client
pub mod Scan
pub mod Telnet
pub mod Reader
pub mod UdpServer
pub mod Util
pub mod Request
pub mod Session
pub mod Exec
pub mod Dispatch
pub mod Command
pub mod HashMap
pub mod Mpmc
pub mod Server
