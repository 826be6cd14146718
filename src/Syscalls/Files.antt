-- ===== src/Syscalls/Files.antt =====
-- Files through the system calls: a file that SYS_open finds is what SYS_read gives.
use nascent_os.Proc.{Proc}
