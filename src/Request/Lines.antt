-- ===== src/Request/Lines.antt =====
-- The parser of src/Request.cpp on requests that are written as it expects them.
pub mod RequestLine
pub mod BodyKind
pub mod Joined
pub mod Section
