-- ===== src/Ssd1306.antt =====
-- i2c/ssd1306_i2c/ssd1306_i2c.c: a 128 by 32 display, its commands and its frame buffer. The font of
-- ssd1306_font.h and the C library's `toupper` are arguments, and so is what the bus has been
-- sent: a list of I2C writes, the latest last.
pub mod Commands
pub mod Draw
pub mod Pixels
pub mod Glyphs
pub mod Render
pub mod Line
pub mod Steps
pub mod Turns
pub mod DrawLine
pub mod WholeLine
