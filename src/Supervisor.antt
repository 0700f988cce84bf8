-- ===== src/Supervisor.antt =====
-- src/supervisor/supervisor.c and src/supervisor/utils.c, as they are built on Unix: a program that
-- watches child processes and ends them when its parent is gone. Array has the list of pids, Input
-- the commands that it reads, Kill the end of the children, and Round the main loop.
pub mod Types
pub mod Array
pub mod Input
pub mod Kill
pub mod Round
mod Tests
