-- ===== src/RequestLine.antt =====
-- tools/parse_requestline.h and tools/parse_requestline.c: the request-line state machine.
-- The line is the bytes of the C string `rqline`. A pointer into it is what is left of the line
-- from there: `p` is the list still to be read, `p - 1` the byte just read and that list.
-- Writing to a field of 1024 bytes past its end is undefined behaviour in C: the outcome
-- `overflow`.
pub mod Step
pub mod Run
pub mod Grammar
pub mod Spans
pub mod Target
pub mod Complete
pub mod Bounds
pub mod Reject
