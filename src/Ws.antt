-- ===== src/Ws.antt =====
-- The functions of repo/ws that this project has added to its copy of the websocket library.
pub mod Frame
pub mod Frames
pub mod Unframed
pub mod Http
pub mod Request
