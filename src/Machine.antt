-- ===== src/Machine.antt =====
-- The machine layer (Machine.cpp): requests for files are messages to a second process, which
-- answers with messages that end in the callbacks.
pub mod Wire
pub mod Requests
pub mod Server
pub mod Protocol
pub mod Flight
pub mod Startup
