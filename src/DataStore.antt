-- ===== src/DataStore.antt =====
-- includes/DataStore.hpp and src/DataStore.cpp: the byte store that moves from memory to a
-- temporary file. The kernel is a list of the replies that it will give to this store's next
-- system calls, in order; when the list is used up every call is served in full. A descriptor is
-- its file position; -1 is `none`.
pub mod Kernel
pub mod Files
pub mod Writes
pub mod Switch
pub mod Contents
pub mod FileAppends
pub mod Appends
pub mod Copies
pub mod Served
pub mod Ends
pub mod CopyLoop
pub mod Duplicates
pub mod Readable
pub mod ReadSteps
pub mod Reads
