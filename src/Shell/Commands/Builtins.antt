-- ===== src/Shell/Commands/Builtins.antt =====
-- The built-in commands return, and keep the variables of the shell in order.
use sbuoperating_system.Prelude.{
  ℕ, ◌+◌, ◌<◌, ◌≤◌, ◌≡◌, ◌≢◌, refl, ap, Bool, true, false, List, [], ◌∷◌, Option, none, some, ltb,
  ◌==◌, if◌then◌else◌, arith, inl, inr, Bool-cases, length, All,
}
use sbuoperating_system.Memory.{IsText, codes}
use sbuoperating_system.Libc.Environ.{Environ, same_text, setenv}
use sbuoperating_system.Libc.Environ.Laws.{IsPacked}
use sbuoperating_system.Shell.Parser.{CommandArgument}
use sbuoperating_system.Shell.Process.{
  Calls, Answers, returned, overrun, Process, Effect, then_run, ◌>>◌, done,
}
use sbuoperating_system.Shell.Pipes.{get_built_in_code}
use sbuoperating_system.Shell.Commands.Variables.{setenv-IsPacked}
use sbuoperating_system.Shell.Commands.Returns.{Ends, echo-Ends, cd-Ends, pwd-Ends}
use sbuoperating_system.Shell.Commands.{
  Blocks, Shell, max_ps1_length, cut_at, export_argument, export_from, execute_built_in_export,
  execute_built_in_without_export, execute_command,
}

-- The used slots come first with strings as keys, and the prompt ends in its 100 bytes.
pub record IsOrdered (sh : Shell) : Type 0 where
  pub packed : IsPacked sh.environ
  pub prompt : length sh.ps1 < max_ps1_length

-- The parts of a text that is cut.
abbrev Cut : List ℕ → Option (List ℕ × List ℕ) → Type 0
Cut text none = Unit
Cut text (some (key, value)) = IsText key × (length value < length text)

cut_at-Cut : (ch : ℕ) (text : List ℕ) → IsText text → Cut text (cut_at ch text)
unfolding cut_at
cut_at-Cut ch [] h = tt
cut_at-Cut ch (d ∷ text) (p, h) = elim (Bool-cases (d == b'\n')) [
  | inl newline ↦ rw newline tt
  | inr other ↦ elim (Bool-cases (d == ch)) [
    | inl hit ↦ rw (other, hit) (tt, omega arith)
    | inr miss ↦ rw (other, miss) (step (cut_at ch text) (cut_at-Cut ch text h))
  ]
]
  where
    step :
        (o : Option (List ℕ × List ℕ))
        → Cut text o
        → Cut
            (d ∷ text)
            (elim o [ none ↦ none | some (before, behind) ↦ some (d ∷ before, behind) ])
    step none c = tt
    step (some (before, behind)) (k, l) = ((p, k), omega (arith, l))

export_argument-IsPacked :
    (address : ℕ) (text : List ℕ) (env : Environ)
    → IsText text
    → IsPacked env
    → IsPacked (export_argument address text env)
unfolding export_argument
export_argument-IsPacked address text env h packed =
    step (cut_at b'=' text) (cut_at-Cut b'=' text h)
  where
    step :
        (o : Option (List ℕ × List ℕ))
        → Cut text o
        → IsPacked (elim o [
          | none ↦ env
          | some (key, value) ↦ (setenv key (address + length key + 1) 1 env).1
        ])
    step none c = packed
    step (some (key, value)) (k, l) = setenv-IsPacked key _ env k packed

export_from-IsPacked :
    (argument_at : ℕ → ℕ) (i : ℕ) (args : List (List ℕ)) (env : Environ)
    → All IsText args
    → IsPacked env
    → IsPacked (export_from argument_at i args env)
unfolding export_from
export_from-IsPacked argument_at i [] env h packed = packed
export_from-IsPacked argument_at i (text ∷ args) env (k, h) packed =
    export_from-IsPacked argument_at (i + 1) args (export_argument (argument_at i) text env) h
      (export_argument-IsPacked (argument_at i) text env k packed)

-- A run that returns variables that are in order.
abbrev pub Keeps : Process Shell → Type 0
Keeps p = (log : Calls) → (sh : Shell) × (log' : Calls) × (p log ≡ returned sh log') × IsOrdered sh

with-Keeps : (p : Effect) (sh : Shell) → Ends p → IsOrdered sh → Keeps (p >> done sh)
with-Keeps p sh h ordered log =
    let (log', ran) = h log in (sh, log', ap (λ r. then_run r (λ u. done sh)) ran, ordered)

if-Keeps : (b : Bool) (p q : Process Shell) → Keeps p → Keeps q → Keeps (if b then p else q)
if-Keeps true p q h k = h
if-Keeps false p q h k = k

export-Keeps :
    (blocks : Blocks) (c : CommandArgument) (sh : Shell)
    → All IsText c.arguments
    → IsOrdered sh
    → IsOrdered (record sh { environ = execute_built_in_export blocks c sh.environ })
unfolding execute_built_in_export
export-Keeps blocks c sh h ordered = record {
  packed = export_from-IsPacked blocks.argument_at 0 c.arguments sh.environ h ordered.packed;
  prompt = ordered.prompt;
}

-- The command of a built-in that is a text of at most 100 bytes, with texts as arguments.
pub record IsReadable (c : CommandArgument) : Type 0 where
  pub command : IsText c.command
  pub short : length c.command ≤ max_ps1_length
  pub arguments : All IsText c.arguments

without_export-Keeps :
    (blocks : Blocks) (c : CommandArgument) (sh : Shell)
    → IsReadable c
    → IsOrdered sh
    → Keeps (execute_built_in_without_export blocks c sh)
unfolding execute_built_in_without_export
without_export-Keeps blocks c sh readable ordered =
    step (cut_at b'=' c.command) (cut_at-Cut b'=' c.command readable.command)
  where
    set : List ℕ → Environ
    set key = (setenv key (blocks.command_at + length key + 1) 1 sh.environ).1

    stored : (key : List ℕ) → Shell
    stored key = record sh { environ = set key }

    in_order : (key : List ℕ) → IsText key → IsOrdered (stored key)
    in_order key h = record {
      packed = setenv-IsPacked key _ sh.environ h ordered.packed;
      prompt = ordered.prompt;
    }

    step :
        (o : Option (List ℕ × List ℕ))
        → Cut c.command o
        → Keeps (elim o [
          | none ↦ done (record sh { environ = execute_built_in_export blocks c sh.environ })
          | some (key, value) ↦
              let env = (setenv key (blocks.command_at + length key + 1) 1 sh.environ).1 in
              let env = execute_built_in_export blocks c env in
              if same_text key (codes "PS1")
              then (if ltb (length value) max_ps1_length
                  then done (record { environ = env; ps1 = value })
                  else overrun)
              else done (record sh { environ = env })
        ])
    step none cut = λ log. (_, log, refl, export-Keeps blocks c sh readable.arguments ordered)
    step (some (key, value)) (tk, less) =
        let kept = export-Keeps blocks c (stored key) readable.arguments (in_order key tk) in
        let fits : ltb (length value) max_ps1_length ≡ true =
          ground (arith, less, readable.short) in
        if-Keeps (same_text key (codes "PS1")) _ _
          (rw fits (λ log. (
            record { environ = execute_built_in_export blocks c (set key); ps1 = value },
            log,
            refl,
            record { packed = kept.packed; prompt = omega (arith, less, readable.short) },
          )))
          (λ log. (_, log, refl, kept))

-- A built-in command whose name has at most 100 bytes returns to the shell, whatever the kernel answers
-- and whatever the variables hold, and keeps the variables in order: the used slots first with strings as
-- keys, and the prompt within its array.
pub execute_command-IsOrdered :
    (k : Answers) (string_at : ℕ → List ℕ)
    (execute_binary : CommandArgument → Shell → Process Shell) (blocks : Blocks)
    (c : CommandArgument) (sh : Shell) (log : Calls)
    → get_built_in_code c ≢ 0
    → IsReadable c
    → IsOrdered sh
    → (sh' : Shell) × (log' : Calls) × (execute_command k string_at execute_binary blocks c sh log
        ≡ returned sh' log')
      × IsOrdered sh'
unfolding execute_command
execute_command-IsOrdered k string_at execute_binary blocks c sh log built_in readable ordered =
    let code = get_built_in_code c in
    let off : (code == 0) ≡ false = ground (arith, built_in) in
    rw off (
      if-Keeps (code == 1) _ _ (with-Keeps _ sh (cd-Ends k c.arguments) ordered)
        (if-Keeps (code == 2) _ _ (with-Keeps _ sh (pwd-Ends k c.arguments) ordered) (
          if-Keeps (code == 3) _ _
            (λ log. (_, log, refl, export-Keeps blocks c sh readable.arguments ordered))
            (if-Keeps (code == 4) _ _
              (with-Keeps _ sh (echo-Ends string_at sh.environ c.arguments) ordered)
              (if-Keeps (code == 5) _ _ (without_export-Keeps blocks c sh readable ordered)
                (λ log. (sh, _, refl, ordered))))))
        log)
