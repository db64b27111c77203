-- ===== src/Tests.antt =====
-- The theorems at concrete inputs, and runs of the definitions.
pub mod Locking
pub mod Scheduling
pub mod Strings
pub mod Files
pub mod Queues
pub mod Windows
pub mod Layers
pub mod Pointing
pub mod Typing
pub mod Handles
pub mod Allocating
pub mod Linking
pub mod Dragging
pub mod Painting
pub mod Paging
pub mod Texts
pub mod Numbers
pub mod Clicking
pub mod Updating
pub mod Calling
