-- ===== src/Proxy.antt =====
-- proxy.c: the request handler and what it calls.
pub mod Rio
pub mod Buffer
pub mod Body
pub mod Chunked
pub mod Header
pub mod Request
pub mod Reply
pub mod System
pub mod Frame
pub mod Ledger
pub mod Relay
pub mod Connect
pub mod Doit
pub mod Thread
pub mod Accept
