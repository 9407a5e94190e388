-- ===== src/Tests.antt =====
-- Runs on concrete inputs, one module for each part of the library.
mod Usb
mod Dhcp
mod Tcp
mod Dns
mod Devices
mod Hid
mod Ntp
mod Crc
mod Gatt
mod Runner
mod Http
mod Microscope
