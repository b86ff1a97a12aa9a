-- ===== src/Client.antt =====
-- The event stream of a server (src/client.rs): its frames and their decoding.
pub mod Parse
pub mod Frames
pub mod Stream
