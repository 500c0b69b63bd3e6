-- ===== src/Memory.antt =====
-- Byte-addressed memory, shared by the kernel's screen and the C library. Every address holds a byte;
-- faults of the hardware are not part of the model.
use Prim.Native.Char.{code}
use Prim.Native.String.{String}
use sbuoperating_system.Prelude.{ℕ, ◌+◌, ◌≡◌, ◌≢◌, List, [], ◌∷◌, ◌==◌, if◌then◌else◌, All}

abbrev pub Memory : Type 0
Memory = ℕ → ℕ

-- The null pointer is the address 0.
abbrev pub null : ℕ
null = 0

abbrev pub poke : ℕ → ℕ → Memory → Memory
poke a v mem b = if b == a then v else mem b

-- The bytes of `s` stand from `p` on, none of them zero, with a zero behind them.
abbrev pub IsString : Memory → ℕ → List ℕ → Type 0
IsString mem p [] = mem p ≡ 0
IsString mem p (c ∷ s) = (mem p ≡ c) × (c ≢ 0) × IsString mem (p + 1) s

-- No byte of a string is zero.
abbrev pub IsText : List ℕ → Type 0
IsText = All (λ c. c ≢ 0)

pub IsString-IsText : (mem : Memory) (p : ℕ) (s : List ℕ) → IsString mem p s → IsText s
IsString-IsText mem p [] h = tt
IsString-IsText mem p (c ∷ s) h = (h.1, IsString-IsText mem (p + 1) s h.2)

-- The code points of a text.
abbrev pub codes : String → List ℕ
codes String.[] = []
codes (String.◌∷◌ c s) = code c ∷ codes s
