-- ===== src/Lib.antt =====
-- Verification library of cpp-toy.
--
-- The repository holds five C++ projects that do not call one another. This library models their own
-- logic and proves what makes it correct; each module below opens with the files that it is about.
--
-- mymuduo (module Muduo) is a reactor: an EventLoop polls an EpollPoller, which reports the Channels
-- that have events; a Channel calls back its TcpConnection, which moves bytes between its socket and
-- two Buffers; other threads hand functors to the loop through a queue and wake it by an eventfd.
--   * mymuduo/buffer.h, buffer.cpp: Muduo/Buffer.antt. `Buffer` has the vector and the two indices;
--     each method is a function of the method's name in snake case. Indices are 64-bit and wrap. A
--     copy outside the vector is the fault `out_of_range`, a vector longer than max_size()
--     `length_error`. Its children prove what a buffer holds (View), how room is made (Space), that
--     it is a queue of bytes (Queue, Refinement), and what ReadFd and WriteFd do (Io).
--   * mymuduo/channel.h, channel.cpp: Muduo/Channel.antt. Events are the bit masks of <sys/epoll.h>.
--   * mymuduo/poller.cpp, Epoll_poller.cpp: Muduo/Poller.antt. `World` has every channel by address,
--     the map channels_, and the kernel's interest list, which is the interface `Epoll` of
--     Muduo/Poller/Kernel.antt with the laws of epoll_ctl(2). LOG_FATAL ends the process: `exited`.
--     Poller/Opening.antt and Closing.antt follow a channel from its constructor to its
--     removal.
--   * mymuduo/event_loop.cpp: Muduo/EventLoop.antt, with the loop among other threads as the step
--     relation of Muduo/EventLoop/Wakeup.antt. EventLoop/Making.antt has its constructor and
--     destructor, over the poller.
--   * mymuduo/socket.cpp, acceptor.cpp: Muduo/Socket.antt has the calls of the system, as a list, and
--     Muduo/Acceptor.antt the listening socket and its channel in the poller.
--   * mymuduo/tcp_connection.cpp: Muduo/TcpConnection.antt. `Conn` has the connection's fields, what
--     the kernel took of its outgoing bytes (`wire`), and the list of what it asked of others.
--     TcpConnection/Performing.antt does to the poller what that list asks of it.
--   * mymuduo/tcp_server.cpp, event_loop_thread_pool.cpp: Muduo/TcpServer.antt, with the server, its
--     connections and the main loop as the step relation of Muduo/TcpServer/Lifetime.antt, and the
--     destructor, with the removals that come after it, in Muduo/TcpServer/Ending.antt.
--   * mymuduo/event_loop_thread.cpp and thread.cpp: Muduo/LoopThread.antt has the owner and the new
--     thread as a step relation; Muduo/Thread.antt the names and ids of threads.
--   * mymuduo/inet_address.cpp: Muduo/InetAddress.antt, with inet_addr and inet_ntop as parameters.
-- readv, write, epoll_wait and epoll_ctl are parameters, with what POSIX and the manuals say of them
-- as hypotheses. No function of this part takes fuel: every loop runs over a list.
--
-- sgi_memory_pool (module SgiPool) is an allocator with sixteen free lists; SgiPool.antt has each of
-- its functions. `next` is the first word of the block at each address. AllocChunk calls itself:
-- its fuel `chunk_fuel` is 2, enough since a second call finds room at once; the
-- search of longer lists has `search_fuel`, one round for each list and one for the last test.
-- SgiPool/Owned.antt says who owns each byte: a list, a client, or the range not handed out yet.
--
-- nginx_memory_pool (module NginxPool) carves small requests from blocks and keeps lists of large
-- blocks and of clean-up handlers; NginxPool.antt has each of its functions, NginxPool/Small.antt
-- and NginxPool/Large.antt what is proved of the two kinds of request, NginxPool/Apart.antt runs of
-- small requests. No function takes fuel.
--
-- thread_pool (module ThreadPool): ThreadPool.antt has what each thread and client does with the
-- mutex held, ThreadPool/Steps.antt the pool among them as a step relation. Start is one step.
--
-- connection_pool (module ConnectionPool): ConnectionPool.antt has the rounds of the producer and of
-- the scanner, GetConnection and the deleter, ConnectionPool/Sharing.antt their interleavings;
-- ConnectionPool/Config.antt has LoadConfig, with the text of mysql.ini as an argument.
--
-- malloc, realloc and the clock are parameters of the functions that call them. Not modelled: the
-- logger and the timestamps of mymuduo (output, and conversions by libc), the calls of the MySQL
-- client, and the example programs.
-- Base.antt has the helpers that the parts share.
pub mod Base
pub mod Muduo
pub mod SgiPool
pub mod ThreadPool
pub mod NginxPool
pub mod ConnectionPool
