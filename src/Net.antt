-- ===== src/Net.antt =====
-- src/net: connections. Sockets, epoll and OpenSSL are parameters.
pub mod Connection
