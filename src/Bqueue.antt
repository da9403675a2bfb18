-- ===== src/Bqueue.antt =====
-- tools/bqueue.h and tools/bqueue.c: the queue of descriptors between threads, on an explicit heap.
pub mod Ops
pub mod Fifo
