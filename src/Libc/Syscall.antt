-- ===== src/Libc/Syscall.antt =====
-- The wrappers of the system calls, include/sys/syscall.h: which registers each loads before `syscall`.
-- The kernel is a parameter: from the registers and a state it gives what it leaves in `rax`. Pointers are
-- addresses and an int is its bit pattern. A wrapper is a C function, so its arguments stand in `rdi`, `rsi`
-- and `rdx` when it is called, and a register that it does not load keeps what the call left in it.
mod Tests
use sbuoperating_system.Prelude.{ℕ, ◌%◌, ◌^◌, ◌==◌, if◌then◌else◌}

pub record Registers : Type 0 where
  pub rax : ℕ
  pub rbx : ℕ
  pub rcx : ℕ
  pub rdx : ℕ
  pub rdi : ℕ
  pub rsi : ℕ

abbrev pub tiocgpgrp : ℕ
tiocgpgrp = 0x540F

abbrev pub tiocspgrp : ℕ
tiocspgrp = 0x5410

module _ {ℓ} {S : Type ℓ} (kernel : Registers → S → ℕ × S) (r : Registers) where
  -- The answer as an int.
  abbrev pub syscall : Registers → S → ℕ × S
  syscall loaded st = let (ret, st) = kernel loaded st in (ret % 2 ^ 32, st)

  pub read : ℕ → ℕ → ℕ → S → ℕ × S
  read fd buf size st =
      syscall (record r { rax = 0; rbx = fd; rcx = buf; rdx = size; rdi = fd; rsi = buf }) st

  unfoldable pub write : ℕ → ℕ → ℕ → S → ℕ × S
  write fd buf size st = syscall (record r { rax = 1; rdi = fd; rsi = buf; rdx = size }) st

  pub getpid : S → ℕ × S
  getpid st = syscall (record r { rax = 39 }) st

  pub open_file : ℕ → ℕ → S → ℕ × S
  open_file path permissions st =
      syscall (record r { rax = 2; rbx = path; rcx = permissions; rdi = path; rsi = permissions })
        st

  pub close : ℕ → S → ℕ × S
  close fd st = syscall (record r { rax = 3; rbx = fd; rdi = fd }) st

  pub exit : S → ℕ × S
  exit st = syscall (record r { rax = 60 }) st

  -- `pipefd` is the address of the array, and the others are the numbers in it.
  pub pipe : ℕ → ℕ → ℕ → S → ℕ × S
  pipe pipefd read_fd write_fd st =
      syscall (record r { rax = 22; rbx = read_fd; rcx = write_fd; rdi = pipefd }) st

  pub dup2 : ℕ → ℕ → S → ℕ × S
  dup2 oldfd newfd st =
      syscall (record r { rax = 33; rbx = oldfd; rcx = newfd; rdi = oldfd; rsi = newfd }) st

  pub fork : S → ℕ × S
  fork st = syscall (record r { rax = 57 }) st

  pub execve : ℕ → ℕ → ℕ → S → ℕ × S
  execve path argv envp st =
      syscall (record r { rax = 59; rbx = path; rcx = argv; rdx = envp; rdi = path; rsi = argv }) st

  pub waitpid : ℕ → ℕ → ℕ → S → ℕ × S
  waitpid pid status options st =
      syscall
        (record r { rax = 61; rbx = pid; rcx = status; rdx = options; rdi = pid; rsi = status }) st

  pub chdir : ℕ → S → ℕ × S
  chdir path st = syscall (record r { rax = 80; rbx = path; rdi = path }) st

  pub setpgid : ℕ → ℕ → S → ℕ × S
  setpgid pid pgid st =
      syscall (record r { rax = 109; rbx = pid; rcx = pgid; rdi = pid; rsi = pgid }) st

  pub getpgid : ℕ → S → ℕ × S
  getpgid pid st = syscall (record r { rax = 121; rbx = pid; rdi = pid }) st

  pub getpgrp : ℕ → S → ℕ × S
  getpgrp pid st = syscall (record r { rax = 111; rbx = pid; rdi = pid }) st

  pub munmap : ℕ → ℕ → S → ℕ × S
  munmap addr len st =
      syscall (record r { rax = 11; rbx = addr; rcx = len; rdi = addr; rsi = len }) st

  -- `buf` if the call answers 0, and the null pointer otherwise.
  pub getcwd : ℕ → ℕ → S → ℕ × S
  getcwd buf size st =
      let (ret, st) =
        syscall (record r { rax = 79; rbx = buf; rcx = size; rdi = buf; rsi = size }) st in
      (if ret == 0 then buf else 0, st)

  -- `val` is the address of the local variable.
  pub tcgetpgrp : ℕ → ℕ → S → ℕ × S
  tcgetpgrp val fd st =
      syscall (record r { rax = 16; rbx = fd; rcx = tiocgpgrp; rdx = val; rdi = fd }) st

  -- `pgrp` is the address of the parameter, and `value` what the call gave for it.
  pub tcsetpgrp : ℕ → ℕ → ℕ → S → ℕ × S
  tcsetpgrp pgrp fd value st =
      syscall (record r { rax = 16; rbx = fd; rcx = tiocspgrp; rdx = pgrp; rdi = fd; rsi = value })
        st

  -- The last three operands may stand anywhere. The answer is a pointer.
  pub mmap : ℕ → ℕ → ℕ → S → ℕ × S
  mmap addr len prot st =
      let (ret, st) =
        kernel (record r { rax = 9; rbx = addr; rcx = len; rdx = prot; rdi = addr; rsi = len })
          st in
      (ret % 2 ^ 64, st)

  -- The answer is a long int.
  pub lseek : ℕ → ℕ → ℕ → S → ℕ × S
  lseek fd offset whence st =
      let (ret, st) =
        kernel (record r { rax = 8; rbx = fd; rcx = offset; rdx = whence; rdi = fd; rsi = offset })
          st in
      (ret % 2 ^ 64, st)

  -- The descriptor in the new `FILE`; `mode` is the first character of the mode.
  pub fopen : ℕ → ℕ → S → ℕ × S
  unfolding open_file
  fopen path mode st = open_file path mode st

  pub fclose : ℕ → S → ℕ × S
  unfolding close
  fclose fd st = close fd st
