-- ===== src/Threadpool.antt =====
-- tools/threadpool.h and tools/threadpool.c: worker threads and the list of their tasks.
pub mod Ops
pub mod Machine
pub mod Safe
pub mod Steps
pub mod Reach
pub mod Weight
pub mod Join
pub mod Wake
