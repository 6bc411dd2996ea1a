-- ===== src/Request.antt =====
-- includes/Request.hpp and src/Request.cpp: the HTTP request and its parser.
pub mod State
pub mod Line
pub mod Headers
pub mod Body
pub mod Chunks
pub mod Copies
pub mod Lines
