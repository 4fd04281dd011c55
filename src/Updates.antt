-- ===== src/Updates.antt =====
-- What the server keeps of a client's screen: `modifiedRegion`, `copyRegion` and `requestedRegion` of
-- libvncserver/main.c and libvncserver/rfbserver.c.
pub mod Client
pub mod Sync
pub mod Copy
pub mod Send
pub mod Examples
pub mod Mark
pub mod Run
pub mod Copying
pub mod Copies
pub mod Moved
pub mod Delivered
