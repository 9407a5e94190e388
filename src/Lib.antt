-- ===== src/Lib.antt =====
-- Models of programs of this repository of Pico examples, and what has been proved of them. The
-- programs do not call each other; each is a component with its own state, driven by interrupts
-- or by callbacks of lwIP and the Pico SDK, whose results are arguments here.
--
-- Common: numbers are native naturals; a machine word keeps its width by `u8`, `u16` and `u32`; a C
--   array is a list, with a copy into it (`splice`) that the models guard where C could go past
--   its end.
-- Usb: usb/device/dev_lowlevel. Hw holds the register masks of the SDK, as a record that the
--   definitions take; Descriptors dev_lowlevel.h; Transfer the globals (`Device`) and
--   usb_start_transfer; Control the setup packets; Interrupt the endpoint handlers, isr_usbctrl
--   and the start-up. The result is a device or a fault (an assertion, a null pointer, an access
--   outside an array, panic). Buffers, Packet, Enumerate, Strings, Address and Safety
--   hold theorems.
-- Dhcp: pico_w/wifi/access_point/dhcpserver/dhcpserver.c. Options is the search for an option and the
--   writers, Server the leases and dhcp_server_process; Lookup, Leases, Grants, Exclusive and Reply hold
--   theorems. The search runs on fuel 155, since each round moves by 2 or more of 308 bytes.
-- Dns: pico_w/wifi/access_point/dnsserver/dnsserver.c. Server is dns_server_process; Safety and Names
--   hold theorems. The walk over the labels runs on fuel 300, since each round moves by a byte or
--   more and a message has 300 bytes at most.
-- Tcp: pico_w/wifi/tcp_server/picow_tcp_server.c and pico_w/wifi/tcp_client/picow_tcp_client.c. Receive is
--   how a packet is put into the buffer, Server and Client are the callbacks; Events is the
--   relation of the states that the server can reach, Sound what holds in them; ClientSound has
--   both for the client; Echo and Round are about a buffer in packets.
-- Http: pico_w/wifi/access_point/picow_access_point.c. Texts is its strings, Server a connection with
--   the handlers of its packets and acknowledgements, Callbacks the other callbacks; Page and Closing
--   hold theorems.
-- SlaveMem: i2c/slave_mem_i2c/slave_mem_i2c.c. Slave is the handler and a round of the master.
-- Microscope: spi/spi_master_slave/spi_master, the controller of a scanning microscope, as the calls of
--   the SDK in their order. Board is ports, decoder and LED; Converters and Ad5664 are the chips on
--   the bus; Scanner is the scanner and the ADC with its interrupt, with fuel 65536 for each way of
--   move_to, since a coordinate has 16 bits; Driver is the linear drives, Commands the lines that core
--   1 reads with the flags they set, Chips and Loop a turn of core 0, Approach the loops that core 1
--   ends, with an entry in a list for each round. Tracking, Ways, Steps, Moves, Raster, ScanPoints,
--   ScanLines, Sent, Pulses, Parsing, Sweep, Swept, Stopping and Touch hold theorems. In set_freq and
--   activate the quotients of doubles are exact, below 2 ^ 31 Hz for the first. What the log sends on
--   the UART is left out. A conversion that is waited for is one with Z_STATE clear: with it set the
--   source would wait for ever, and the loops that set it wait until it is clear.
-- Ssd1306: i2c/ssd1306_i2c/ssd1306_i2c.c. Commands is what is sent, Draw the frame buffer, where
--   coordinates are natural numbers, and Line is DrawLine on 32-bit words in two's complement, with
--   fuel 160, since a line on the display has 158 steps at most; Pixels, Glyphs, Render, Steps,
--   Turns, DrawLine and WholeLine hold theorems.
-- Nec: nec_encode_frame and nec_decode_frame of pio/ir_nec.
-- Ws2812: pio/ws2812/ws2812_parallel.c. Patterns fills a strip, Transform puts the colours of all
--   strips in bit planes and Planes adds in them; Dither, Frames, Scaled and Strips hold theorems.
-- Hid: usb/device/dev_hid_composite/main.c and usb/host/host_cdc_msc_hid/hid_app.c. Device is the
--   device: its static variables, those of functions too, and what it calls of TinyUSB; Releases,
--   Safety, Round and Polling hold theorems. Host is the host's side, with what it prints; Keys,
--   Mouse, Dispatch and Faults hold theorems. The constants and tables of TinyUSB are records.
-- Ntp: pico_w/wifi/ntp_client/picow_ntp_client.c. Client is the state, the callbacks and a turn of the
--   loop, with the alarms that are armed in the state; Watched, Recovery and Reply hold theorems.
-- SniffCrc: dma/sniff_crc/sniff_crc.c. Crc is the CRC in software, Detect what it detects.
-- Gatt: pico_w/bt/standalone/client.c. Client is the handlers of BTstack's events; Listening and
--   Reading hold theorems.
-- Runner: multicore/multicore_runner_queue/multicore_runner_queue.c. Queues is the functions and the
--   steps of the two cores, in any order; Results, Numbers and Order hold theorems. Arguments
--   are below 2^31 and results are words, so that an overflow wraps, which C leaves undefined.
-- Tests: runs on concrete inputs.
--
-- Not modelled: what printf shows, the socket and pin setup that only calls libraries, the
-- demonstration of the display, the DMA of the LED strips, and the other programs of the
-- repository, which are mostly calls of the SDK.
pub mod Common
pub mod Usb
pub mod Dhcp
pub mod Tcp
pub mod Ssd1306
pub mod SlaveMem
pub mod Dns
pub mod Nec
pub mod Hid
pub mod Ntp
pub mod SniffCrc
pub mod Gatt
pub mod Runner
pub mod Http
pub mod Microscope
pub mod Ws2812
pub mod Tests
