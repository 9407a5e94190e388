-- ===== src/Hid.antt =====
-- usb/device/dev_hid_composite and usb/host/host_cdc_msc_hid: human interface devices on both ends
-- of the bus, between the callbacks of TinyUSB.
pub mod Device
pub mod Releases
pub mod Safety
pub mod Round
pub mod Polling
pub mod Host
pub mod Keys
pub mod Dispatch
pub mod Mouse
pub mod Faults
