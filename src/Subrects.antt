-- ===== src/Subrects.antt =====
-- The encodings of a rectangle as a background and single-coloured rectangles: libvncserver/rre.c,
-- libvncserver/corre.c, and their decoders in libvncclient/rre.c and libvncclient/corre.c.
pub mod Image
pub mod Encode
pub mod Examples
pub mod Find
pub mod Background
pub mod Loop
pub mod Draws
pub mod Wire
pub mod Canvas
pub mod Roundtrip
pub mod Shown
pub mod Send
pub mod Stream
pub mod Outcome
pub mod Tiles
