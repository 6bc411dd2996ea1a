-- ===== src/Tests.antt =====
-- Runs of the model on concrete inputs, and the theorems at concrete inputs.
pub mod Parsing
pub mod Storing
pub mod Requests
pub mod Responses
pub mod Scripts
pub mod Manager
pub mod Startup
