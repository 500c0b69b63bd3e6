-- ===== src/Libc/Syscall/Tests.antt =====
-- A kernel that follows the convention of `write` and answers with the first argument.
use sbuoperating_system.Prelude.{ℕ, ◌+◌, ◌≡◌, refl}
use sbuoperating_system.Libc.Syscall.{Registers, write, dup2}

abbrev kernel : Registers → ℕ → ℕ × ℕ
kernel r st = (r.rdi, st + r.rdx)

abbrev registers : Registers
registers = record { rax = 5; rbx = 5; rcx = 5; rdx = 5; rdi = 5; rsi = 5 }

write_passes : write kernel registers 1 600 3 0 ≡ (1, 3)
unfolding write
write_passes = refl

-- What the call left in `rdi` is the argument too.
dup2_leaves : dup2 kernel registers 3 1 0 ≡ (3, 5)
unfolding dup2
dup2_leaves = refl
