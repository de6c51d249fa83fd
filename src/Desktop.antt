-- ===== src/Desktop.antt =====
-- desktop/include/rwn/desktop/desktop.hpp and desktop/src/desktop.cpp.
pub mod Wire
pub mod Limits
pub mod VisualMessageType
pub mod ReverseControlType
pub mod Previews
pub mod Headers
pub mod Updates
pub mod Fragment
pub mod Reassembly
pub mod Framebuffer
pub mod Snapshot
pub mod Rects
pub mod InputKind
pub mod Utf8
pub mod InputEvents
pub mod Input
pub mod Pacing
pub mod Datagram
mod Tests
