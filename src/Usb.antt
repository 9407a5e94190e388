-- ===== src/Usb.antt =====
-- usb/device/dev_lowlevel/dev_lowlevel.c: a USB device driven by the controller's interrupts.
pub mod Hw
pub mod Descriptors
pub mod Transfer
pub mod Control
pub mod Interrupt
pub mod Buffers
pub mod Packet
pub mod Enumerate
pub mod Strings
pub mod Address
pub mod Safety
