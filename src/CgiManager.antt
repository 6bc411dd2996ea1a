-- ===== src/CgiManager.antt =====
-- includes/CGIManager.hpp and src/CGIManager.cpp: the process of a CGI script. State is the object and
-- the static set of the processes, Environment what `prepare` makes, Processes the parent's side of
-- `execute`, `isDone` and the cleanup, Child the side of the process that fork makes.
pub mod State
pub mod Environment
pub mod Processes
pub mod Child
pub mod Paths
pub mod Headers
pub mod Limit
pub mod Cleanup
pub mod Launched
