-- ===== src/Socks.antt =====
-- SOCKS: the packets (include/asioext/socks/detail/impl/protocol.cpp) and the client operations
-- (include/asioext/socks/detail/client.hpp).
pub mod Protocol
pub mod Packets
pub mod PacketsV4
pub mod Client
pub mod Exchange
pub mod Sessions
pub mod ExecSessions
