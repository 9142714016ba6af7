-- ===== src/OpenWhisk.antt =====
-- OpenWhisk/: the client of an OpenWhisk server.
pub mod Action
pub mod Command
pub mod Lister
pub mod Invoker
