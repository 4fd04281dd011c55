-- ===== src/Region.antt =====
-- libvncserver/rfbregion.c.
pub mod Span
pub mod Laws
pub mod Merge
pub mod Split
pub mod Or
pub mod And
pub mod Subtract
pub mod Nested
pub mod Levels
pub mod Rgn
pub mod Boolean
pub mod Box
pub mod Tight
pub mod Clip
pub mod Offset
pub mod Pick
pub mod Pop
pub mod Iterator
pub mod Iterate
pub mod Order
pub mod Examples
