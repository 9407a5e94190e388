-- ===== src/Http.antt =====
-- pico_w/wifi/access_point/picow_access_point.c: the page of the access point, which shows its LED
-- and switches it.
pub mod Texts
pub mod Server
pub mod Page
pub mod Callbacks
pub mod Closing
