-- ===== src/Running/Safe.antt =====
-- The function pointers of student-distrib/syscalls.c in the states that the running kernel reaches.
use linux_like_os_project.Kernel.{Kernel}
