-- ===== src/SniffCrc.antt =====
-- dma/sniff_crc/sniff_crc.c: the CRC-32 that the program computes in software, appends to its data
-- and has the DMA sniffer check. The sniffer is hardware.
pub mod Crc
pub mod Detect
