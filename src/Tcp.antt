-- ===== src/Tcp.antt =====
-- pico_w/wifi/tcp_server and pico_w/wifi/tcp_client: ten rounds of a 2048-byte buffer that the
-- server sends and the client sends back. Both run as callbacks of lwIP, whose answers (whether a
-- close or a write succeeds, what a packet holds) are arguments of the models.
pub mod Receive
pub mod Server
pub mod Client
pub mod Events
pub mod Sound
pub mod Echo
pub mod Round
pub mod ClientSound
