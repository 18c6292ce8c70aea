-- ===== src/Conn.antt =====
-- native/condukt_egress/src/proxy/conn.rs: one redirected connection. `Conn/Host` names its host,
-- `Conn/Handle` is the handler, and `Conn/Transfer` carries the bytes.
pub mod Outcome
pub mod Host
pub mod Transfer
pub mod Roots
pub mod Https
pub mod Handle
pub mod Stages
pub mod Tests
