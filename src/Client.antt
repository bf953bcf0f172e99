-- ===== src/Client.antt =====
-- cpp_client/src/Client.cpp: the commands of the messenger, over the other parts. `State` has the
-- members and what the process reads and writes; Session, Trust, Sending, Messages, Inbox and Threads
-- have the methods; the others prove.
pub mod State
pub mod Session
pub mod Start
pub mod Paths
pub mod Trust
pub mod Sending
pub mod Messages
pub mod Inbox
pub mod Threads
mod Steps
pub mod Evolves
pub mod Guards
pub mod Record
pub mod Genuine
pub mod Trusted
pub mod Removed
pub mod Conversations
pub mod EndToEnd
pub mod Signup
pub mod Login
pub mod Removal
pub mod Order
pub mod Tests
mod LoginTests
