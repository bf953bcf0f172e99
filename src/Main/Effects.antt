-- ===== src/Main/Effects.antt =====
-- What the chat mode and the shell do to the client, to the line that is typed and to the terminal.
pub mod Lines
pub mod Kept
pub mod Chat
pub mod Lives
pub mod Shell
