-- ===== src/Kernel/Kprintf/Clock.antt =====
-- `printTime` stays in its place on the status row.
use native.Mathlib.Nat.{pow-suc, pow-zero}
use sbuoperating_system.Prelude.{
  ℕ, zero, suc, ◌+◌, ◌/◌, ◌%◌, ◌^◌, ◌<◌, ◌≤◌, ◌≡◌, ◌⊎◌, refl, ◌∙◌, false, List, [], ◌∷◌, some, map,
  ◌==◌, arith, length,
}
use sbuoperating_system.Kernel.Console.{Console, base_addr, time_address, put_cell, write_cells}
use sbuoperating_system.Kernel.Console.Cells.{write_cells-end, write_cells-frame}
use sbuoperating_system.Kernel.Kprintf.{digit_loop, max_digits, digit_char, print_time}
use sbuoperating_system.Kernel.Kprintf.Numerals.{decimal-IsNumeral}

-- A number below 10 ^ j has at most j digits.
digit_loop-short :
    (store : ℕ → ℕ) (k j num : ℕ) (stack r : List ℕ)
    → digit_loop 10 store k num stack ≡ some r
    → num < 10 ^ j
    → length r ≤ length stack + j
unfolding digit_loop
digit_loop-short store zero j num stack r e h = ground arith
digit_loop-short store (suc k) j zero stack r e h = ground arith
digit_loop-short store (suc k) zero (suc n) stack r e h = absurd (omega (arith, pow-zero 10))
digit_loop-short store (suc k) (suc j) (suc n) stack r e h =
    let more : (suc n == 0) ≡ false = ground arith in
    let below : suc n / 10 < 10 ^ j = omega (arith, pow-suc 10 j) in
    let ih =
      digit_loop-short store k j (suc n / 10) (store (suc n % 10) ∷ stack) r (rw more at e) below in
    omega arith

length-map : (f : ℕ → ℕ) (xs : List ℕ) → length (map f xs) ≡ length xs
length-map f [] = refl
length-map f (x ∷ xs) = omega (arith, length-map f xs)

-- The two consoles differ at most in the status row.
pub record SameText (c d : Console) : Type 0 where
  pub height : d.current_height ≡ c.current_height
  pub width : d.current_width ≡ c.current_width
  pub memory : (a : ℕ) → (a < base_addr + 3840) ⊎ (base_addr + 4000 ≤ a) → d.memory a ≡ c.memory a

pub SameText-refl : (c : Console) → SameText c c
SameText-refl c = record { height = refl; width = refl; memory = λ a out. refl }

pub SameText-trans : (c d e : Console) → SameText c d → SameText d e → SameText c e
SameText-trans c d e p q = record {
  height = q.height ∙ p.height;
  width = q.width ∙ p.width;
  memory = λ a out. q.memory a out ∙ p.memory a out;
}

pub print_time-SameText :
    (time : ℕ) (c : Console) → (d : Console) × (print_time time c ≡ some d) × SameText c d
unfolding print_time
print_time-SameText time c =
    let (ds, ran, n) = decimal-IsNumeral (time % 2 ^ 32) (omega arith) in
    let short : length ds ≤ 10 =
      omega
        (arith, digit_loop-short (λ d. d) max_digits 10 (time % 2 ^ 32) [] ds ran (omega arith)) in
    let text = map digit_char ds in
    let r = write_cells text time_address c.memory in
    let size : length text ≤ 10 = omega (arith, length-map digit_char ds) in
    let end = write_cells-end text time_address c.memory in
    (
      record c { memory = put_cell r.0 b's' r.1 },
      rw (ran, print_time),
      record {
        height = refl;
        width = refl;
        memory = λ a out.
            ground (arith, end, size, write_cells-frame text time_address c.memory a (omega arith));
      },
    )
