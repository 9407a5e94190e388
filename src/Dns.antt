-- ===== src/Dns.antt =====
-- pico_w/wifi/access_point/dnsserver/dnsserver.c: the server that answers every name with the access
-- point's own address.
pub mod Server
pub mod Safety
pub mod Names
