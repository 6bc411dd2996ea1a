-- ===== src/Request/Chunks.antt =====
-- The chunk decoder of src/Request.cpp against the chunked coding.
pub mod View
pub mod Loop
pub mod Ends
pub mod Finished
pub mod Whole
