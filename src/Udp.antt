-- ===== src/Udp.antt =====
-- `src/transport/udp_transport.cpp`: the reliability protocol over datagrams.
pub mod State
pub mod Acks
pub mod Bandwidth
pub mod Send
pub mod Resend
pub mod Receive
pub mod Process
pub mod Transport
pub mod Stats
