-- ===== src/Prelude/Bits.antt =====
-- Shifts, masks and `|` of words as arithmetic on the native numbers.
use Prim.Native.Nat.{
  ℕ, zero, suc, ◌+◌, ◌*◌, ◌/◌, ◌%◌, ◌^◌, ◌≤◌, ◌<◌, bit_or, bit_and, max, digits, bit_or-bitwise,
}
use mathlib.Core.Path.{◌≡◌, refl, ap, ◌∙◌}
use mathlib.Core.Bool.{Bool, true, ◌&&◌}
use sbuoperating_system.Prelude.Tests.{◌==◌, ==_iff}
use native.Mathlib.Nat.{pow-suc}
use native.Mathlib.Omega.{arith}

infixl 60 ◌<<<◌ ◌>>>◌
-- `x << k`, `x >> k`
abbrev pub ◌<<<◌ : ℕ → ℕ → ℕ
x <<< k = x * 2 ^ k

abbrev pub ◌>>>◌ : ℕ → ℕ → ℕ
x >>> k = x / 2 ^ k

abbrev or_digits : ℕ → ℕ → ℕ → ℕ
or_digits n a b = digits (λ y. y) max n a b

-- The count of digits does not matter once it covers the first number.
or_digits_fuel : (n m a b : ℕ) → a ≤ n → a ≤ m → or_digits n a b ≡ or_digits m a b
or_digits_fuel zero zero a b p q = refl
or_digits_fuel zero (suc m) zero b p q = refl
or_digits_fuel (suc n) zero zero b p q = refl
or_digits_fuel (suc n) (suc m) zero b p q = refl
or_digits_fuel (suc n) (suc m) (suc a) b p q =
    omega (arith, or_digits_fuel n m (suc a / 2) (b / 2) (omega arith) (omega arith))
or_digits_fuel zero _ (suc a) b p q = absurd (omega arith)
or_digits_fuel (suc n) zero (suc a) b p q = absurd (omega arith)

zero-bit_or : (b : ℕ) → bit_or 0 b ≡ b
zero-bit_or b = bit_or-bitwise 0 b

bit_or_step : (a b : ℕ) → bit_or a b ≡ bit_or (a / 2) (b / 2) * 2 + max (a % 2) (b % 2)
bit_or_step zero b = omega (arith, zero-bit_or b, zero-bit_or (b / 2))
bit_or_step (suc a) b = omega (
  arith,
  bit_or-bitwise (suc a) b,
  bit_or-bitwise (suc a / 2) (b / 2),
  or_digits_fuel a (suc a / 2) (suc a / 2) (b / 2) (omega arith) (omega arith),
)

bit_or-zero_below : (n a : ℕ) → a ≤ n → bit_or a 0 ≡ a
bit_or-zero_below n zero h = refl
bit_or-zero_below zero (suc a) h = absurd (omega arith)
bit_or-zero_below (suc n) (suc a) h =
    omega (arith, bit_or_step (suc a) 0, bit_or-zero_below n (suc a / 2) (omega arith))

-- `(hi << k) | lo` is a sum when `lo` has at most `k` digits.
pub bit_or_disjoint : (k hi lo : ℕ) → lo < 2 ^ k → bit_or (hi <<< k) lo ≡ hi * 2 ^ k + lo
bit_or_disjoint zero hi lo h = ground (arith, bit_or-zero_below hi hi (omega arith))
bit_or_disjoint (suc k) hi lo h =
    let double : hi * 2 ^ suc k ≡ 2 * (hi * 2 ^ k) =
      omega (arith, ap (λ (t : ℕ). hi * t) (pow-suc 2 k)) in
    ground (
      arith,
      bit_or_step (hi * 2 ^ suc k) lo,
      double,
      bit_or_disjoint k hi (lo / 2) (ground (arith, pow-suc 2 k)),
    )

-- The same for a number that is a multiple of `2 ^ k`.
pub bit_or_multiple : (k hi m lo : ℕ) → m ≡ hi * 2 ^ k → lo < 2 ^ k → bit_or m lo ≡ m + lo
bit_or_multiple k hi m lo e h =
    ap (λ (t : ℕ). bit_or t lo) e ∙ bit_or_disjoint k hi lo h ∙ omega arith

bit_or_comm_below : (n a b : ℕ) → a ≤ n → b ≤ n → bit_or a b ≡ bit_or b a
bit_or_comm_below zero a b p q = let z : a ≡ b = omega arith in rw z
bit_or_comm_below (suc n) a b p q = ground (
  arith,
  bit_or_step a b,
  bit_or_step b a,
  bit_or_comm_below n (a / 2) (b / 2) (omega arith) (omega arith),
)

-- `lo | (hi << k)`, the other way round.
pub bit_or_disjoint_right : (k hi lo : ℕ) → lo < 2 ^ k → bit_or lo (hi <<< k) ≡ hi * 2 ^ k + lo
bit_or_disjoint_right k hi lo h =
    bit_or_comm_below (max lo (hi <<< k)) lo (hi <<< k) (omega arith) (omega arith)
    ∙ bit_or_disjoint k hi lo h

-- A test of every number below `n`, for operations without laws at variables.
pub all_below : ℕ → (ℕ → Bool) → Bool
all_below zero p = true
all_below (suc n) p = p n && all_below n p

pub all_below_sound : (n : ℕ) (p : ℕ → Bool) (x : ℕ) → all_below n p ≡ true → x < n → p x ≡ true
unfolding all_below
all_below_sound zero p x h lt = elim lt [ ]
all_below_sound (suc n) p x h lt = ground (arith, all_below_sound n p x)

clear_two_table : all_below 256 (λ x. bit_and x 0xfc == x / 4 * 4) ≡ true
unfolding all_below
clear_two_table = refl

-- `x & 0xfc` of a byte drops the two low digits.
pub bit_and-clear_two : (x : ℕ) → x < 256 → bit_and x 0xfc ≡ x / 4 * 4
bit_and-clear_two x h =
    (==_iff (bit_and x 0xfc) (x / 4 * 4)).0
      (all_below_sound 256 (λ y. bit_and y 0xfc == y / 4 * 4) x clear_two_table h)
