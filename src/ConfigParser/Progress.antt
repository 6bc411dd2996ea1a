-- ===== src/ConfigParser/Progress.antt =====
-- Each parser consumes tokens and never runs out of fuel, and what it returns is valid.
pub mod Rules
pub mod ServerHandlers
pub mod Handlers
pub mod Loops
