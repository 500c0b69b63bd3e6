-- ===== src/Shell/Pipes/Codes.antt =====
-- Which commands are built in.
use sbuoperating_system.Prelude.{
  ℕ, ◌≡◌, ◌≢◌, ◌↔◌, true, false, List, [], ◌∷◌, none, arith, sym, inl, inr, Bool-cases,
}
use sbuoperating_system.Memory.{IsText}
use sbuoperating_system.Libc.Strings.Scans.{find_char}
use sbuoperating_system.Libc.Environ.{same_text}
use sbuoperating_system.Libc.Environ.Laws.{same_text_iff}
use sbuoperating_system.Shell.Parser.{CommandArgument}
use sbuoperating_system.Shell.Pipes.{get_built_in_code}

-- A test of the name that fails, and one that holds.
differs :
    (name text : List ℕ) → IsText name → IsText text → name ≢ text → same_text name text ≡ false
differs name text n h ne = elim (Bool-cases (same_text name text)) [
  | inl same ↦ absurd (ne ((same_text_iff name text n h).0 same))
  | inr other ↦ other
]

equal : (name text : List ℕ) → IsText name → IsText text → name ≡ text → same_text name text ≡ true
equal name text n h e = (same_text_iff name text n h).1 e

abbrev cd : List ℕ
cd = b'c' ∷ b'd' ∷ []

abbrev pwd : List ℕ
pwd = b'p' ∷ b'w' ∷ b'd' ∷ []

abbrev export : List ℕ
export = b'e' ∷ b'x' ∷ b'p' ∷ b'o' ∷ b'r' ∷ b't' ∷ []

abbrev echo : List ℕ
echo = b'e' ∷ b'c' ∷ b'h' ∷ b'o' ∷ []

IsText-export : IsText export
IsText-export =
    (omega arith, (omega arith, (omega arith, (omega arith, (omega arith, (omega arith, tt))))))

IsText-echo : IsText echo
IsText-echo = (omega arith, (omega arith, (omega arith, (omega arith, tt))))

-- A command is one of the programs to be run exactly if it is none of `cd`, `pwd`, `export` and `echo`
-- and has no `=` in front of any newline.
pub get_built_in_code-zero_iff :
    (c : CommandArgument)
    → IsText c.command
    → (get_built_in_code c ≡ 0) ↔ (
        (c.command ≢ b'c' ∷ b'd' ∷ [])
        × (c.command ≢ b'p' ∷ b'w' ∷ b'd' ∷ [])
        × (c.command ≢ b'e' ∷ b'x' ∷ b'p' ∷ b'o' ∷ b'r' ∷ b't' ∷ [])
        × (c.command ≢ b'e' ∷ b'c' ∷ b'h' ∷ b'o' ∷ [])
        × (find_char b'=' c.command ≡ none))
unfolding get_built_in_code
get_built_in_code-zero_iff c h = (
  λ e. (
    λ x. ground (arith, e, equal cd c.command (omega arith, (omega arith, tt)) h (sym x)),
    λ x.
        ground
          (arith, e, equal pwd c.command (omega arith, (omega arith, (omega arith, tt))) h (sym x)),
    λ x. ground (arith, e, equal export c.command IsText-export h (sym x)),
    λ x. ground (arith, e, equal echo c.command IsText-echo h (sym x)),
    ground (arith, e),
  ),
  λ (a, b, d, f, absent). rw (
    differs cd c.command (omega arith, (omega arith, tt)) h (λ e. a (sym e)),
    differs pwd c.command (omega arith, (omega arith, (omega arith, tt))) h (λ e. b (sym e)),
    differs export c.command IsText-export h (λ e. d (sym e)),
    differs echo c.command IsText-echo h (λ e. f (sym e)),
    absent,
  ),
)
