-- ===== src/Muduo/TcpServer/Ending.antt =====
-- The end of a server, while removals are on their way or not.
