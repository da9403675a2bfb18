-- ===== src/Hashmap.antt =====
-- tools/concurrent_hashmap.h and tools/concurrent_hashmap.c: the table of segments, as one thread
-- sees it. The locks are not part of the state here: `Race` has the two steps of an insertion.
-- `none` is undefined behaviour: an access through an index that is outside its array.
pub mod Chain
pub mod Table
pub mod Ops
pub mod View
pub mod Laws
pub mod Init
pub mod Race
