-- ===== src/ServerManager.antt =====
-- includes/ServerManager.hpp and src/ServerManager.cpp: the event loop. State is the manager and the
-- objects that its pointers reach, Polling the interest in descriptors, Listening the sockets that
-- accept, Clients the connections, Scheduling the round robin, Pipes the output of the scripts,
-- Timeouts the sweeps, and Loop one turn of `run`.
pub mod State
pub mod Polling
pub mod Listening
pub mod Clients
pub mod Scheduling
pub mod Pipes
pub mod Timeouts
pub mod Loop
pub mod Sound
pub mod Kept
pub mod Calm
pub mod Tends
pub mod Dropped
pub mod Handled
pub mod Rounds
pub mod Piped
pub mod Swept
pub mod Safety
pub mod Added
pub mod Constructed
pub mod Returned
pub mod Queue
pub mod Pass
pub mod Paged
pub mod Idle
pub mod HungUp
pub mod Late
pub mod Forgotten
