-- ===== src/SlaveMem.antt =====
-- i2c/slave_mem_i2c/slave_mem_i2c.c: a 256-byte memory behind an I2C slave, and the master that
-- writes a message to it and reads it back in two parts. What the SDK does with the bus is seen
-- through the events it makes of a transfer: one `receive` or `request` for each byte, and a
-- `finish` at the stop or restart.
pub mod Slave
pub mod ReadBack
