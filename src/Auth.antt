-- ===== src/Auth.antt =====
-- How a client is let in: libvncserver/auth.c, and the states of a client in libvncserver/rfbserver.c.
pub mod Registry
pub mod Session
pub mod Server
pub mod Guarded
pub mod Outside
pub mod Safety
pub mod Admission
pub mod Handshake
pub mod Examples
