-- ===== src/TcpServers.antt =====
-- tcp_servers/
pub mod Echo
pub mod Epoll
pub mod Tests
