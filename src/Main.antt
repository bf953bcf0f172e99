-- ===== src/Main.antt =====
-- cpp_client/src/main.cpp: the shell, the chat mode and the arguments, over Client.
pub mod Words
pub mod Index
pub mod Terminal
pub mod Lines
pub mod Screen
pub mod Keys
pub mod Chat
pub mod Repl
pub mod Arguments
pub mod Effects
pub mod Returns
pub mod Lasting
pub mod Exits
pub mod Splits
pub mod Resolves
pub mod Flags
pub mod Strokes
pub mod Typing
pub mod Refresh
mod SendingTests
pub mod Tests
