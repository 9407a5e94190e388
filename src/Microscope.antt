-- ===== src/Microscope.antt =====
-- spi/spi_master_slave/spi_master: the controller of a scanning microscope.
pub mod Board
pub mod Converters
pub mod Ad5664
pub mod Scanner
pub mod Tracking
pub mod Ways
pub mod Steps
pub mod Moves
pub mod Raster
pub mod ScanPoints
pub mod ScanLines
pub mod Sent
pub mod Driver
pub mod Pulses
pub mod Commands
pub mod Parsing
pub mod Chips
pub mod Approach
pub mod Loop
pub mod Sweep
pub mod Swept
pub mod Stopping
pub mod Touch
