-- ===== src/Response.antt =====
-- includes/Response.hpp and src/Response.cpp: the answer to a request, its construction and its
-- sending. What the operating system says of files and of the time is a `Site`; what the socket
-- does with the bytes of a send is a list of replies.
pub mod State
pub mod Paths
pub mod Pages
pub mod Build
pub mod Handlers
pub mod Uploads
pub mod Dispatch
pub mod Send
pub mod Cgi
pub mod Output
pub mod Held
pub mod Copies
