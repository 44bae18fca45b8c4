-- ===== src/Handler.antt =====
-- src/handler: the connections to the backend and the requests that wait on them.
pub mod Demux
pub mod Pool
pub mod Execute
pub mod Maintain
mod Examples
pub mod Connection
