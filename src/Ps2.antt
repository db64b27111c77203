-- ===== src/Ps2.antt =====
-- The keyboard and the mouse (system/devices/ps2.cpp, include/devices/ps2.h).
pub mod Keyboard
pub mod Mouse
