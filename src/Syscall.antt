-- ===== src/Syscall.antt =====
-- System calls: userprog/syscall.c.
pub mod Fd
pub mod Calls
