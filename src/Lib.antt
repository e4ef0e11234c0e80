-- ===== src/Lib.antt =====
-- Verification of cc_learning: a thread pool, lock-free and locked ring-buffer queues, a timer list, a
-- memory pool, a logger, and a reactor network library with an echo server and an HTTP server on top.
--
-- The parts and their files:
--   * Base: byte strings, the Boolean tests, lists over native numbers, words of 64 bits (`add_size`,
--     `sub_size` wrap around), bit masks, decimal numbers as `printf` writes them, `std::map` with
--     string keys, and the interface of the standard library's binary heaps (`Heap`) with an instance
--     (`sorted_heap`).
--   * ThreadPool: thread_pool/ThreadPool.h. The pool is a state machine; a step is what one thread does
--     while it holds `mtx_`, or the run of one task. `Account` and `History` hold the account of tasks,
--     `Crew`, `Members`, `Shutdown` and `Bounds` the account of threads, `Order` the choice of the next
--     task.
--   * RingBuffer: ring_buffer/include/ring_buffer.h. `MPMCLockedQueue` as functions (one call is one
--     step under its lock), refined by the bounded list of RingBuffer/Queue; RingBuffer/Spsc has
--     `SPSCQueue` as interleaved accesses of the shared variables, taken as sequentially consistent.
--   * Buffer: reactor_net/include/Buffer.h and reactor_net/src/Buffer.cpp. A pointer into the vector is
--     an index. `readv` and `write` are values that say what the call did.
--   * Http: HttpRequest, HttpResponse and `HttpServer::onMessage` of reactor_net (`Url`, `Request`,
--     `Response`, `Server`); the other files hold the theorems. The server parses the contents of a
--     Buffer, writes the response through a Buffer and takes the request off the first one.
--   * Channel: reactor_net/src/Channel.cpp and reactor_net/src/EPollPoller.cpp over an interface of
--     `epoll_ctl` (`Epoll`), of which Channel/Table has an instance.
--   * TcpConnection: reactor_net/src/TcpConnection.cpp over a Channel and two Buffers. Events of the
--     socket, calls of clients and queued functors come in any order; a failed assertion ends the run.
--   * EchoServer: the echo server of reactor_net/src/main.cpp, on a connection of TcpConnection.
--   * EventLoop: reactor_net/src/EventLoop.cpp as a state machine of the loop's thread, between whose
--     steps other threads queue functors, quit and write to the eventfd (`Reach`).
--   * EventLoopThread: reactor_net/src/EventLoopThread.cpp, the thread of an EventLoop and its owner, over
--     the steps of that machine.
--   * TimerQueue: reactor_net/src/TimerQueue.cpp and Timer over the heap interface. The callbacks are
--     the client's and may add and cancel timers.
--   * TimerList: timer/timer.cc, the nodes and their links on a store of addresses. `Links` reads the
--     list off the links, `Spec` has the list without them, `Calls` a client with its pointers, and
--     `Reinsert` compares two ways through `adjust_timer`.
--   * Acceptor: reactor_net/src/Acceptor.cpp over the results of `accept` and `open`.
--   * TcpServer: reactor_net/src/TcpServer.cpp, the choice of loops and the table of connections, with
--     the tasks that its operations give to the loops (`Balance`) and the removals that wait
--     in the base loop (`World`, `Removal`, `History`).
--   * MemoryPool: pool/pool.c, with a client that keeps, frees and writes its blocks; memory is
--     bytes, and a link stands in the first eight of a free block. Sizes and addresses are 64 bits;
--     what `malloc` gives is a parameter, of which two theorems suppose that it is not NULL and ends
--     inside the address space.
--   * Logger: logger/src/log_file.cpp and the line format of logger/src/logger.cpp, over a file system
--     that is a map from paths to contents; Logger/Front has `Logger` of logger/include/logger/logger.h.
-- A record carries the fields of its class under the same names; an operation has the method's name.
--
-- Fuel: the loop of `parseHeaders` and that of `getExpired` have one unit for each byte and each
-- timer, as each round takes at least one; the loops of TimerList have one unit for each timer
-- and one more, which a theorem supposes as the most timers that clients have at a time;
-- `decimal` has one unit more than the number. Sizes are `size_t` of 64 bits: statements about
-- buffers suppose that sizes stay below 2 ^ 64. Integers that are only compared (priorities,
-- times) are natural numbers, counted from their least value on.
--
-- Not modelled: sockets and addresses, the C program in struct, and the demonstration and test
-- programs. System calls, the file system, the kernel's epoll instance and the clients' callbacks
-- are parameters.
pub mod Base
pub mod Buffer
pub mod RingBuffer
pub mod ThreadPool
pub mod Http
pub mod Channel
pub mod TcpConnection
pub mod EchoServer
pub mod EventLoop
pub mod EventLoopThread
pub mod TimerList
pub mod TimerQueue
pub mod Logger
pub mod MemoryPool
pub mod Acceptor
pub mod TcpServer
