-- ===== src/Version.antt =====
-- loro-c-api/src/version.rs: version vectors, frontiers and operation ids. The data type and its
-- methods are the crate's, so each entry point is the guard, the pointers, and the way the result
-- crosses the boundary.
pub mod Ids
pub mod Vector
pub mod Algebra
pub mod Spans
pub mod Frontiers
pub mod Travel
