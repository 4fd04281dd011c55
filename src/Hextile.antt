-- ===== src/Hextile.antt =====
-- The hextile encoding: libvncserver/hextile.c and libvncclient/hextile.c.
pub mod Colours
pub mod Tile
pub mod Places
pub mod Bitmap
pub mod Number
pub mod Drawn
pub mod Read
pub mod Shown
pub mod Tiles
pub mod Rounds
pub mod Rectangle
pub mod Examples
