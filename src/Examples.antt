-- ===== src/Examples.antt =====
-- The theorems at concrete inputs, and tests of the definitions.
pub mod Devices
pub mod Clock
pub mod Memories
pub mod Processor
pub mod Instructions
pub mod Thumbs
pub mod Frames
pub mod Stacks
pub mod Interrupts
