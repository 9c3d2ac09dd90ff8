-- ===== src/Wire.antt =====
-- src/wire: the packet formats.
pub mod Slice
pub mod Common
pub mod Layout
pub mod Source
pub mod Coded
pub mod Packet
pub mod Feedback
pub mod Ev
