-- ===== src/Lib.antt =====
-- starry is a network library in the style of reactors: an event loop polls the kernel for the
-- descriptors that are ready, a channel per descriptor hands the events on, a connection reads
-- into and writes from byte buffers, and the RPC layer cuts the bytes into protobuf messages.
--
-- Files, and the code that they model (paths from the root of the repository):
--   Address      starry/net/include/inet_address.h, starry/net/src/inet_address.cpp and the addresses
--                of starry/net/src/sockets_ops.cpp. Address/Ports is about ports and ends,
--                Address/Texts about texts.
--   Sockets      starry/net/src/sockets_ops.cpp and starry/net/src/socket.cpp: what the code makes of
--                the answers of the kernel.
--   Buffer       starry/net/include/buffer.h and starry/net/src/buffer.cpp. The vector is a list of
--                bytes, readerIndex_ and writerIndex_ are numbers, and a pointer into the vector is
--                an index. `contents` in Buffer/Contents is the abstract view, the readable bytes.
--                Buffer/Space, Buffer/Append and Buffer/Outcomes are about the room for new bytes,
--                Buffer/Retrieve and Buffer/Front about taking bytes and giving them back,
--                Buffer/Numbers about integers in network order, Buffer/Socket about readFd,
--                Buffer/Search about line ends.
--   Codec        starry/net/rpc/protobuf_codec_lite.h and .cpp: fillEmptyBuffer, parse, onMessage.
--                Codec/Frames describes the wire format apart from the code, Codec/Sending and
--                Codec/Decode relate the code to it, Codec/Decode/Stream and Codec/Decode/Loop do so
--                for a whole stream. Codec/Protobuf holds what is used of protobuf and zlib.
--   Channel      starry/net/include/channel.h and starry/net/src/channel.cpp: the interest masks and
--                the order of the callbacks.
--   Poller       starry/net/include/epoll_poller.h and starry/net/src/epoll_poller.cpp, with
--                Channel::update and Channel::remove. Poller/Kernel holds what is used of epoll_ctl,
--                Poller/Sync is about one channel, Poller/World about all channels of a loop.
--   Connection   starry/net/include/tcp_connection.h and starry/net/src/tcp_connection.cpp, run in
--                the thread of its loop. Connection/Inv is the invariant, Connection/Output and
--                Connection/Sending are about sending, Connection/Drain about writing what waits,
--                Connection/Stopping about the shutdown, Connection/Closing about the rest of a
--                connection's life. Connection/Buffers is about sending a buffer. Connection/Lifecycle
--                has all operations as steps; Lifecycle/Transfers, Changes, Reading and Runs are about them.
--   Connector    starry/net/include/connector.h and starry/net/src/connector.cpp: one attempt at a
--                time, retries by timers. Connector/Delays is about the delays,
--                Connector/Descriptors and Connector/Attempts about what becomes of each descriptor.
--   RpcChannel   starry/net/rpc/rpc_channel.h and starry/net/rpc/rpc_channel.cpp: calls that wait for
--                their answers. RpcChannel/Answers is about ids and answers.
--   RpcServer    starry/net/rpc/rpc_server.h, rpc_server.cpp, rpc_service.h and rpc_service.cpp: the
--                table of services and the channels of the connections. RpcServer/Services is about
--                the table, RpcServer/Listing about what RpcService tells of it, RpcServer/Channels
--                about requests.
--   Rpc          The codec's send and onMessage over a connection, with the channels as callbacks.
--                Rpc/Frames is about messages on one connection, Rpc/Ends about each part of a call,
--                Rpc/Calls about a whole call.
--   EventLoop    starry/net/include/eventloop.h and starry/net/src/eventloop.cpp: the pending functors,
--                the rounds, wakeup and quit. EventLoop/Calls is about the calls of functors,
--                EventLoop/Rounds about the loop's own thread, EventLoop/Threads about other threads.
--   TimerQueue   starry/net/include/timer.h, starry/net/src/timer.cpp, starry/net/include/timer_queue.h
--                and starry/net/src/timer_queue.cpp. TimerQueue/Sets and SetLaws hold what is used of
--                std::set, Timerfd the descriptor, Inv and Removal the invariant, Expired what
--                getExpired does, Frame and Safety the rest, Faults where the process ends, Requests
--                runAt, runAfter, runEvery and cancel of the loop.
--   Logging      starry/base/log/include/log_stream.h and starry/base/log/src/async_logger.cpp.
--                Logging/Steps puts the calls of append and stop between the steps of the writer's
--                thread, Logging/Appends and Logging/Writer are about each side, Logging/Kept about
--                both; Logging/File is starry/base/log/src/log_file.cpp with Logging/File/Bounds.
--                Logging/Lines is starry/base/log/include/logging.h and
--                starry/base/log/src/logging.cpp, with Logging/Lines/Texts.
--   ThreadPool   starry/base/thread_pool/include/thread_pool.h. ThreadPool/Runs has the steps of the
--                workers and of the callers, ThreadPool/Tasks what becomes of the tasks.
--   LoopThread   starry/net/include/eventloop_thread.h and starry/net/src/eventloop_thread.cpp: the
--                thread of a loop and its owner. LoopThread/Orders has the invariant of all orders of
--                their steps, LoopThread/Ends what the owner can rely on.
--   LoopPool     starry/net/include/eventloop_threadpool.h and starry/net/src/eventloop_threadpool.cpp:
--                the loops that a server gives its connections. LoopPool/Turns is about their order.
--   TcpServer    starry/net/include/tcp_server.h and starry/net/src/tcp_server.cpp: the table of the
--                connections, and what is given to their loops. TcpServer/Table is about both.
--   Acceptor     starry/net/include/acceptor.h and starry/net/src/acceptor.cpp. Acceptor/Accepts is
--                about the acceptor of a server.
--   TcpClient    starry/net/include/tcp_client.h and starry/net/src/tcp_client.cpp. TcpClient/Retry is
--                about what follows the end of a connection.
--   Common       the shared tests on numbers and byte strings, lists, maps, size_t and outcomes.
--
-- Connections use the masks of Channel and the buffers; how the poller and the kernel follow the
-- masks of all channels is the subject of Poller/World. The codec works on the buffer of a
-- connection.
--
-- An operation that may fail returns an `Outcome`: an assertion of the source (the default build
-- has them on), a LOG_FATAL, which aborts, an access outside the storage, which the C++ standard
-- leaves undefined, or the length_error of a vector, or the bad_alloc of a new. A size_t is a number below 2 ^ 64 with its
-- wrap-around written out; an int32_t of the wire is its 32 bits, compared by the sign where the
-- source does.
--
-- The loop of onMessage runs on fuel; one more than the number of readable bytes is enough, since
-- a message that is delivered takes at least one byte out of the buffer.
--
-- An id of a call is an int64_t that starts at 0 and is assumed not to reach 2 ^ 63. A channel of the
-- RPC layer is modelled from when it has its connection.
--
-- Parameters: the messages, the serialization and the checksum of Codec/Protobuf, and the kernel of
-- Poller/Kernel, each with its documented laws; the kernel may refuse any call of epoll_ctl. The results
-- of read, write and epoll_wait are arguments of the operations.
--
-- A time is the number of nanoseconds, in the timer queue since Timestamp::min(); it is assumed not
-- to overflow. timerfd_settime and the allocator are parameters too.
--
-- Threads: an operation of a component of a loop runs in the thread of the loop, as
-- assertInLoopThread demands. Where other threads take part, in EventLoop/Threads, Logging/Steps and
-- ThreadPool/Runs, a step is what a thread does between two points at which others can come in.
--
-- The number of a connection of a server is an int that is assumed not to reach 2 ^ 31, and its name
-- is assumed to fit into the 64 bytes that the code has for it.
--
-- Sockets, addresses and the log take what the kernel and the C library answer as arguments, or as
-- the record of Address with its documented laws; std::map orders its keys as byte strings.
--
-- What one end of a connection has written is taken to arrive at the other end in order, as TCP does;
-- in Rpc/Calls the request and the response each arrive in one buffer.
--
-- Not modelled: calls of send from other threads than the loop's, the socket options, the system calls
-- that are only passed on, the conversions of libraries, the printing of states and event masks, and
-- the generator of RPC code in starry/net/rpc/tool, which prints source text.
pub mod Common
pub mod Address
pub mod Sockets
pub mod Buffer
pub mod Codec
pub mod Channel
pub mod Poller
pub mod Connection
pub mod Connector
pub mod RpcChannel
pub mod RpcServer
pub mod Rpc
pub mod EventLoop
pub mod TimerQueue
pub mod Logging
pub mod ThreadPool
pub mod LoopThread
pub mod LoopPool
pub mod Acceptor
pub mod TcpServer
pub mod TcpClient
