-- ===== src/Shell/Commands/Returns.antt =====
-- The built-in commands that only print or change the directory return to the shell.
use sbuoperating_system.Prelude.{
  ℕ, ◌%◌, ◌^◌, ◌≡◌, refl, ap, ◌∙◌, Bool, true, false, List, [], ◌∷◌, Option, none, some, ltb, ◌==◌,
  if◌then◌else◌, length,
}
use sbuoperating_system.Memory.{codes}
use sbuoperating_system.Libc.Environ.{Environ, getenv}
use sbuoperating_system.Shell.Process.{
  Calls, chdir, Answers, returned, Effect, then_run, ◌>>◌, done, custom_fputs,
}
use sbuoperating_system.Shell.Commands.{
  cut_at, put_value, echo_argument, execute_built_in_echo, change_directory, execute_built_in_cd,
  execute_built_in_pwd,
}

-- An effect that always returns.
abbrev pub Ends : Effect → Type 0
Ends p = (log : Calls) → (log' : Calls) × (p log ≡ returned tt log')

if-Ends : (b : Bool) (p q : Effect) → Ends p → Ends q → Ends (if b then p else q)
if-Ends true p q h k = h
if-Ends false p q h k = k

then-Ends : (p q : Effect) → Ends p → Ends q → Ends (p >> q)
then-Ends p q h k log =
    let (log₁, ran₁) = h log in
    let (log₂, ran₂) = k log₁ in (log₂, ap (λ r. then_run r (λ u. q)) ran₁ ∙ ran₂)

write-Ends : (text : List ℕ) → Ends (custom_fputs text)
write-Ends text log = (_, refl)

put_value-Ends : (string_at : ℕ → List ℕ) (o : Option ℕ) → Ends (put_value string_at o)
put_value-Ends string_at none = λ log. (log, refl)
put_value-Ends string_at (some value) = write-Ends (string_at value)

echo_argument-Ends :
    (string_at : ℕ → List ℕ) (env : Environ) (text : List ℕ)
    → Ends (echo_argument string_at env text)
unfolding echo_argument
echo_argument-Ends string_at env text = step (cut_at b'$' text)
  where
    step :
        (o : Option (List ℕ × List ℕ))
        → Ends (elim o [
          | none ↦ done tt
          | some (before, name) ↦ put_value string_at (getenv name env) >> custom_fputs (codes "\n")
        ])
    step none = λ log. (log, refl)
    step (some (before, name)) =
        then-Ends _ _ (put_value-Ends string_at (getenv name env)) (write-Ends (codes "\n"))

pub echo-Ends :
    (string_at : ℕ → List ℕ) (env : Environ) (args : List (List ℕ))
    → Ends (execute_built_in_echo string_at env args)
unfolding execute_built_in_echo
echo-Ends string_at env [] = λ log. (log, refl)
echo-Ends string_at env (text ∷ args) =
    then-Ends _ _ (echo_argument-Ends string_at env text) (echo-Ends string_at env args)

two_writes : (a b : List ℕ) → Ends (custom_fputs a >> custom_fputs b)
two_writes a b = then-Ends _ _ (write-Ends a) (write-Ends b)

change_directory-Ends : (k : Answers) (path : List ℕ) → Ends (change_directory k path)
unfolding change_directory
change_directory-Ends k path log =
    if-Ends (k.result log (chdir path) % 2 ^ 32 == 0) (done tt) _ (λ log. (log, refl))
      (two_writes (codes "Error in cd") (codes "\n")) (chdir path ∷ log)

pub cd-Ends : (k : Answers) (args : List (List ℕ)) → Ends (execute_built_in_cd k args)
unfolding execute_built_in_cd
cd-Ends k [] = change_directory-Ends k (codes "/")
cd-Ends k (path ∷ []) = change_directory-Ends k path
cd-Ends k (path ∷ other ∷ args) =
    two_writes (codes "Max 1 argument is allowed for cd.") (codes "\n")

pub pwd-Ends : (k : Answers) (args : List (List ℕ)) → Ends (execute_built_in_pwd k args)
unfolding execute_built_in_pwd
pwd-Ends k args =
    if-Ends (ltb 1 (length args)) _ _
      (two_writes (codes "No argument is allowed for pwd.") (codes "\n")) (λ log. (_, refl))
