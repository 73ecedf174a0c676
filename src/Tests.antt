-- ===== src/Tests.antt =====
-- The theorems at concrete inputs, by the part of the program.
mod Frames
mod Pages
mod Heaps
mod Files
mod Devices
mod Commands
mod Boots
