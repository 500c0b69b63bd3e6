-- ===== src/Libc.antt =====
-- The C library under libc/.
pub mod Strings
pub mod Environ
pub mod Malloc
pub mod Stdio
pub mod Readline
pub mod Syscall
pub mod Files
