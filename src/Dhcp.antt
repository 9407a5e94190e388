-- ===== src/Dhcp.antt =====
-- pico_w/wifi/access_point/dhcpserver: the DHCP server of the access point.
pub mod Options
pub mod Server
pub mod Lookup
pub mod Leases
pub mod Grants
pub mod Exclusive
pub mod Reply
