-- ===== src/Process.antt =====
-- The process handle and its life: the exit status, signals, waiting, killing, and the list of
-- children that the SIGCHLD handler reads (src/unix/processx.c, childlist.c and sigchld.c). Child is
-- about the file descriptors of a new process.
pub mod Types
pub mod Status
pub mod Finished
pub mod Masked
pub mod Signal
pub mod Wait
pub mod Kill
pub mod Child
pub mod Children
pub mod Exec
pub mod Socketpair
mod Tests
