-- ===== src/Windows.antt =====
-- What src/win/processx.c computes with texts before it creates a process.
pub mod Args
pub mod Search
pub mod Env
pub mod Stdio
