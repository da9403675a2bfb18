-- ===== src/Proxy/Chunked.antt =====
-- `forward_chunked`, `getchunksize` and `hex2num` of proxy.c.
pub mod Size
pub mod Loop
pub mod Chunk
pub mod Forward
pub mod Body
pub mod Closed
