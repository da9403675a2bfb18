-- ===== src/Tests.antt =====
-- Tests of the definitions, and examples at which the hypotheses of the theorems hold.
pub mod Scripted
pub mod Watched
pub mod RequestLine
pub mod Hashmap
pub mod Proxy
pub mod Bqueue
pub mod Doit
pub mod Exchange
pub mod Message
pub mod Threadpool
pub mod Thread
pub mod Connect
pub mod Accept
