-- ===== src/Gatt.antt =====
-- pico_w/bt/standalone/client.c: a Bluetooth client that finds a temperature sensor, connects to it
-- and prints its notifications.
pub mod Client
pub mod Listening
pub mod Reading
