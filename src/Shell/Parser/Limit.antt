-- ===== src/Shell/Parser/Limit.antt =====
-- The limit on the number of arguments.
use mathlib.Core.List.{reverse}
use sbuoperating_system.Prelude.{
  suc, ap, refl, ℕ, ◌≤◌, ◌≡◌, Bool, false, List, [], ◌∷◌, ltb, ◌==◌, arith, inl, inr, Bool-cases,
  length, ◌+◌, ◌-◌, length-reverse,
}
use sbuoperating_system.Shell.Parser.{
  stored, Result, ok, too_many, overrun, ◌>>=◌, Parse, parse_start, open_argument, extend_argument,
  parse_char, parse_loop, parse_input, trim, command_length, argument_length, starts_argument,
  skip_spaces, strip_end, input_length,
}

-- A result of size at most 20 or an overrun, and no report of too many.
abbrev pub Within {ℓ} : {A : Type ℓ} → (A → ℕ) → Result A → Type 0
Within size (ok a) = size a ≤ 20
Within size too_many = ⊥
Within size overrun = Unit

bind-Within {ℓ κ} :
    {A : Type ℓ} {B : Type κ} (size : A → ℕ) (size' : B → ℕ) (r : Result A) (f : A → Result B)
    → Within size r
    → ((a : A) → size a ≤ 20 → Within size' (f a))
    → Within size' (r >>= f)
bind-Within size size' (ok a) f h k = k a h
bind-Within size size' too_many f h k = h
bind-Within size size' overrun f h k = tt

abbrev count : Parse → ℕ
count p = length p.arguments

open_argument-Within :
    (fresh : ℕ → List ℕ) (args : List (List ℕ))
    → length args ≤ 20
    → Within length (open_argument fresh args)
unfolding open_argument
open_argument-Within fresh args h =
    let few : ltb 20 (length args) ≡ false = ground arith in
    rw few (elim (Bool-cases (starts_argument fresh args)) [
      | inr same ↦ rw same h
      | inl next ↦ rw next (elim (Bool-cases (ltb (length args) 20)) [
        | inl room ↦ rw room (ground arith)
        | inr full ↦ rw full tt
      ])
    ])

extend_argument-Within :
    (ch : ℕ) (args : List (List ℕ)) → length args ≤ 20 → Within length (extend_argument ch args)
unfolding extend_argument
extend_argument-Within ch [] h = tt
extend_argument-Within ch (text ∷ args) h =
    elim (Bool-cases (ltb (length text + 1) argument_length)) [
      | inl room ↦ rw room h
      | inr full ↦ rw full tt
    ]

parse_char-Within :
    (fresh : ℕ → List ℕ) (separator ch : ℕ) (p : Parse)
    → count p ≤ 20
    → Within count (parse_char fresh separator ch p)
unfolding parse_char
parse_char-Within fresh separator ch p h = elim (Bool-cases (ch == separator)) [
  | inl sep ↦ rw sep (
      bind-Within length count (open_argument fresh p.arguments) _
        (open_argument-Within fresh p.arguments h) (λ args k. k))
  | inr byte ↦ rw byte (elim (Bool-cases p.command_flag) [
    | inl flag ↦ rw flag (elim (Bool-cases (ltb (length p.command + 1) command_length)) [
      | inl room ↦ rw room h
      | inr full ↦ rw full tt
    ])
    | inr flag ↦ rw flag (
        bind-Within length count (extend_argument ch p.arguments) _
          (extend_argument-Within ch p.arguments h) (λ args k. k))
  ])
]

parse_loop-Within :
    (fresh : ℕ → List ℕ) (separator : ℕ) (input : List ℕ) (p : Parse)
    → count p ≤ 20
    → Within count (parse_loop fresh separator input p)
unfolding parse_loop
parse_loop-Within fresh separator [] p h = h
parse_loop-Within fresh separator (ch ∷ input) p h =
    bind-Within count count (parse_char fresh separator ch p) (parse_loop fresh separator input)
      (parse_char-Within fresh separator ch p h)
      (λ p' k. parse_loop-Within fresh separator input p' k)

abbrev fits : List ℕ → Bool
fits input =
    let rest = skip_spaces input in
    ltb (length input - length rest + length (strip_end (reverse rest) false).0 + 1) input_length

trim-Within : (input : List ℕ) → Within (λ _. 0) (trim input)
unfolding trim
trim-Within input = elim (Bool-cases (fits input)) [
  | inl room ↦ rw room (omega arith)
  | inr full ↦ rw full tt
]

length-stored :
    (fresh : ℕ → List ℕ) (args : List (List ℕ)) → length (stored fresh args) ≡ length args
unfolding stored
length-stored fresh [] = refl
length-stored fresh (text ∷ args) = ap suc (length-stored fresh args)

-- `parseInput` never reports too many arguments: it overruns an array or returns a command with at
-- most 20 arguments.
pub parse_input-limit :
    (fresh : ℕ → List ℕ) (input_line : List ℕ) (separator : ℕ)
    → Within (λ c. length c.arguments) (parse_input fresh input_line separator)
unfolding parse_input
parse_input-limit fresh input_line separator =
    bind-Within (λ _. 0) (λ c. length c.arguments) (trim input_line) _ (trim-Within input_line)
      (λ t _.
        bind-Within count (λ c. length c.arguments) (parse_loop fresh separator t.0 parse_start) _
          (parse_loop-Within fresh separator t.0 parse_start (omega arith))
          (λ p h.
            omega
              (arith, length-stored fresh p.arguments, length-reverse (stored fresh p.arguments))))
