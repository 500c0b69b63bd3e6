-- ===== src/Kernel/Kprintf/Total.antt =====
-- `kprintf` never fails on a format whose conversions find their arguments.
use sbuoperating_system.Prelude.{
  ℕ, ◌%◌, ◌^◌, ◌≡◌, ◌≢◌, refl, Bool, true, false, ◌||◌, List, [], ◌∷◌, some, ◌==◌, arith, inl, inr,
  Bool-cases,
}
use sbuoperating_system.Kernel.Console.{Console, get_current_address}
use sbuoperating_system.Kernel.Kprintf.{
  write_text, Arg, string, number, handle_char, handle_string, handle_everything_else,
  handle_signed_int, handle_address, handle_unsigned_int, convert_string, convert_number, convert,
  kprintf,
}
use sbuoperating_system.Kernel.Kprintf.Handlers.{
  handle_unsigned_decimal, handle_address_hex, handle_signed_decimal, handle_signed_least,
}

abbrev pub takes_number : ℕ → Bool
takes_number d = d == b'd' || d == b'x' || d == b'c' || d == b'p'

-- The arguments are of the kinds that the conversions of the format ask for, and every `%` has a letter
-- behind it.
pub data Fits : List ℕ → List Arg → Type 0 where
  done : {args : List Arg} → Fits [] args
  plain :
      {ch : ℕ} {fmt : List ℕ} {args : List Arg} → ch ≢ b'%' → Fits fmt args → Fits (ch ∷ fmt) args
  textual :
      {s fmt : List ℕ} {args : List Arg}
      → Fits fmt args
      → Fits (b'%' ∷ b's' ∷ fmt) (string s ∷ args)
  numeric :
      {d n : ℕ} {fmt : List ℕ} {args : List Arg}
      → takes_number d ≡ true
      → Fits fmt args
      → Fits (b'%' ∷ d ∷ fmt) (number n ∷ args)

signed-Returns :
    (n addr : ℕ) (c : Console) → (d : Console) × (handle_signed_int (n % 2 ^ 32) addr c ≡ some d)
signed-Returns n addr c = elim (Bool-cases (n % 2 ^ 32 == 2 ^ 31)) [
  | inl least ↦
      let e : n % 2 ^ 32 ≡ 2 ^ 31 = ground arith in
      (write_text (b'-' ∷ []) addr c, rw e (handle_signed_least addr c))
  | inr other ↦
      let (shown, ran, t) =
        handle_signed_decimal (n % 2 ^ 32) addr c (omega arith) (λ e. ground (arith, e)) in
      (_, ran)
]

unsigned-Returns :
    (n addr : ℕ) (c : Console) → (d : Console) × (handle_unsigned_int (n % 2 ^ 32) addr c ≡ some d)
unsigned-Returns n addr c =
    let (shown, ran, t) = handle_unsigned_decimal (n % 2 ^ 32) addr c (omega arith) in (_, ran)

address-Returns :
    (n addr : ℕ) (c : Console) → (d : Console) × (handle_address (n % 2 ^ 64) addr c ≡ some d)
address-Returns n addr c = elim (handle_address_hex (n % 2 ^ 64) addr c (omega arith)) [
  | inl (z, ran) ↦ (_, ran)
  | inr (ds, ran, t, pos_num) ↦ (_, ran)
]

numeric-Returns :
    (d n : ℕ) (args : List Arg) (c : Console)
    → takes_number d ≡ true
    → (c' : Console) × (convert d (number n ∷ args) c ≡ some (args, c'))
unfolding convert convert_number
numeric-Returns d n args c h =
    let (addr, at) = get_current_address c in
    let (c₁, ran₁) = signed-Returns n addr at in
    let (c₂, ran₂) = unsigned-Returns n addr at in
    let (c₃, ran₃) = address-Returns n addr at in
    elim (Bool-cases (d == b'd')) [
      | inl a ↦ (c₁, ground (arith, ran₁))
      | inr a ↦ elim (Bool-cases (d == b'x')) [
        | inl b ↦ (c₂, ground (arith, ran₂))
        | inr b ↦ elim (Bool-cases (d == b'c')) [
          | inl e ↦ (handle_char (n % 2 ^ 8) addr at, ground arith)
          | inr e ↦ (c₃, ground (arith, ran₃))
        ]
      ]
    ]

-- `kprintf` returns for any format whose conversions are `%s`, `%d`, `%x`, `%c` and `%p` and find
-- arguments of their kinds, from any cursor.
pub kprintf-Fits :
    {fmt : List ℕ} {args : List Arg}
    → Fits fmt args
    → (c : Console) → (d : Console) × (kprintf fmt args c ≡ some d)
unfolding kprintf
kprintf-Fits done c = (c, refl)
kprintf-Fits (plain {ch = ch} {fmt = []} ne fits) c =
    let off : (ch == b'%') ≡ false = ground arith in
    let r = get_current_address c in (handle_everything_else ch r.0 r.1, rw off)
kprintf-Fits (plain {ch = ch} {fmt = x ∷ fmt} ne fits) c =
    let off : (ch == b'%') ≡ false = ground arith in
    let r = get_current_address c in
    let (d, ran) = kprintf-Fits fits (handle_everything_else ch r.0 r.1) in (d, rw (off, ran))
kprintf-Fits (textual {s = s} {args = args} fits) c =
    let r = get_current_address c in
    let (d, ran) = kprintf-Fits fits (handle_string s r.0 r.1) in
    (d, unfold convert in unfold convert_string in ran)
kprintf-Fits (numeric {d = d} {n = n} {args = args} kind fits) c =
    let (c', converted) = numeric-Returns d n args c kind in
    let (e, ran) = kprintf-Fits fits c' in (e, rw converted ran)
