-- ===== src/Muduo/TcpConnection/Watching.antt =====
-- The kernel watches a connection for what the connection asks for.
use cpp_toy.Muduo.Channel.{Channel}
