-- ===== src/Ws2812.antt =====
-- pio/ws2812/ws2812_parallel.c: patterns of pixels, and colour values of up to 32 strips kept in bit
-- planes. `planes` is a list of words, the plane of the highest bit first.
pub mod Planes
pub mod Dither
pub mod Patterns
pub mod Transform
pub mod Scaled
pub mod Strips
pub mod Frames
