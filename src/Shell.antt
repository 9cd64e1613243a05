-- ===== src/Shell.antt =====
-- The shell `smash` of hw01-small-shell/Commands.cpp.
--
-- Text is the lines that it reads, Jobs the list of background jobs, Alias the names for commands,
-- Dispatch which command a line is; Session is the state of the shell, and Commands and Control are
-- what the built-in commands do to it. Du and Who are `du` and `whoami`.
pub mod Text
pub mod Jobs
pub mod Alias
pub mod Dispatch
pub mod Session
pub mod Commands
pub mod Control
pub mod Environment
pub mod Who
pub mod Du
mod Tests
