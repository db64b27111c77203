-- ===== src/Gui.antt =====
-- The window system: rectangles (include/gui/shapes.h), the redraw of a window stack, and the
-- linked stack of windows (system/gui.cpp).
pub mod Shapes
pub mod Redraw
pub mod Stack
pub mod Frames
pub mod Update
