-- ===== src/Ntp.antt =====
-- pico_w/wifi/ntp_client/picow_ntp_client.c: a client that asks a time server every half minute.
pub mod Client
pub mod Watched
pub mod Recovery
pub mod Reply
