-- ===== src/Syscalls/Tests.antt =====
-- Runs of the system calls: the file "a" of the archive is opened as descriptor 3 and read.
use nascent_os.Prelude.{ℕ, List, [], ◌∷◌, ◌++◌, none, replicate}
use nascent_os.Frames.Tests.{small}
use nascent_os.Proc.{Fd}
use nascent_os.Proc.Tests.{nothing}
use nascent_os.Tarfs.{set_fds}
use nascent_os.Tarfs.Files.{no_fd}
use nascent_os.Terminal.Tests.{keyboard}
use nascent_os.Syscalls.{System, Registers1, Leftover}

abbrev std : Fd
std = record no_fd { alloted = 1; fdtype = 1 }

abbrev system : System
system = record {
  frames = small;
  kpml_addr = 0;
  terminal = record keyboard { proc = set_fds nothing (replicate 3 std ++ replicate 7 no_fd) };
}

abbrev left : Leftover
left = record { return_address = 0; child_stack = 0; filesz = 0; base = 0; local = replicate 100 0 }

abbrev call : ℕ → ℕ → ℕ → Registers1
call rax rdi rdx = record {
  rax = rax;
  rdi = rdi;
  rdx = rdx;
  string = 47 ∷ 97 ∷ 0 ∷ [];
  buffer = λ i. 88;
  name = [];
  argv = [];
  envp = none;
}

abbrev path : List ℕ
path = 47 ∷ 97 ∷ replicate 98 0
