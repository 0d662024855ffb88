-- ===== src/Muduo.antt =====
-- mymuduo: the reactor and its TCP connections.
pub mod Buffer
pub mod Channel
pub mod Poller
pub mod TcpConnection
pub mod EventLoop
pub mod TcpServer
pub mod LoopThread
pub mod Thread
pub mod Socket
pub mod Acceptor
pub mod InetAddress
