-- ===== src/Core.antt =====
-- The server, src/proxypp/core.
pub mod TcpServer
