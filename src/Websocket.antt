-- ===== src/Websocket.antt =====
-- The websocket layer: libvncserver/ws_decode.c and the encoder of libvncserver/websockets.c.
pub mod Examples
pub mod Context
pub mod Header
pub mod Decode
pub mod Quiet
pub mod Bounds
pub mod Encode
