-- ===== src/Shell/Commands/Variables.antt =====
-- What `export` sets, `echo` shows, and the environment stays in order.
use sbuoperating_system.Prelude.{
  ℕ, ◌+◌, ◌≡◌, refl, sym, ap, ◌∙◌, false, List, [], ◌∷◌, ◌++◌, some, ◌==◌, if◌then◌else◌, inl, inr,
  Bool-cases, length, All,
}
use sbuoperating_system.Prelude.Int.{pos}
use sbuoperating_system.Memory.{IsText, codes}
use sbuoperating_system.Libc.Environ.{Environ, same_text, getenv, setenv}
use sbuoperating_system.Libc.Environ.Laws.{IsPacked, getenv-setenv_overwrite, setenv-refuses}
use sbuoperating_system.Shell.Process.{Calls, write, returned, ◌>>◌, custom_fputs}
use sbuoperating_system.Shell.Commands.{cut_at, export_argument, echo_argument, put_value}

-- No byte of a name ends the search for `=`.
abbrev pub IsName : List ℕ → Type 0
IsName = All (λ ch. ((ch == b'=') ≡ false) × ((ch == b'\n') ≡ false))

pub cut_at-name :
    (key value : List ℕ) → IsName key → cut_at b'=' (key ++ b'=' ∷ value) ≡ some (key, value)
unfolding cut_at
cut_at-name [] value h = refl
cut_at-name (ch ∷ key) value ((p, n), h) = rw (n, p, cut_at-name key value h)

cut_at_dollar : (name : List ℕ) → cut_at b'$' (b'$' ∷ name) ≡ some ([], name)
unfolding cut_at
cut_at_dollar name = refl

pub setenv-IsPacked :
    (key : List ℕ) (value : ℕ) (env : Environ)
    → IsText key
    → IsPacked env
    → IsPacked (setenv key value 1 env).1
setenv-IsPacked key value env tk packed = elim (setenv-refuses key value 1 env).1 [
  | inl stored ↦
      (getenv-setenv_overwrite key value key tk tk env (setenv key value 1 env).1 packed
        (ap (λ r. (r, (setenv key value 1 env).1)) stored)).0
  | inr same ↦ rw same packed
]

export_argument_lem :
    (address : ℕ) (key value : List ℕ) (env : Environ)
    → IsName key
    → export_argument address (key ++ b'=' ∷ value) env
      ≡ (setenv key (address + length key + 1) 1 env).1
unfolding export_argument
export_argument_lem address key value env nk = rw (export_argument, cut_at-name key value nk) refl

pub echo_value :
    (string_at : ℕ → List ℕ) (name : List ℕ) (env : Environ) (log : Calls)
    → echo_argument string_at env (b'$' ∷ name) log
      ≡ (put_value string_at (getenv name env) >> custom_fputs (codes "\n")) log
unfolding echo_argument cut_at
echo_value string_at name env log = refl

-- After `export` of `key=value`, with a key that has no zero, `=` or newline, on an environment in order
-- that has room for it, `echo` of any name behind a `$` shows the value if the name is the key, and for any
-- other name what it showed before; the environment stays in order.
pub export-echo :
    (string_at : ℕ → List ℕ) (address : ℕ) (key value name : List ℕ) (env : Environ) (log : Calls)
    → IsText key
    → IsName key
    → IsText name
    → IsPacked env
    → (setenv key (address + length key + 1) 1 env).0 ≡ pos 0
    → string_at (address + length key + 1) ≡ value
    → let env' = export_argument address (key ++ b'=' ∷ value) env in
      (echo_argument string_at env' (b'$' ∷ name) log ≡ (
        if same_text name key
        then returned tt (write (codes "\n") ∷ write value ∷ log)
        else echo_argument string_at env (b'$' ∷ name) log))
      × IsPacked env'
export-echo string_at address key value name env log tk nk tn packed room stored =
    let at = address + length key + 1 in
    let env' = (setenv key at 1 env).1 in
    let (packed', reads) =
      getenv-setenv_overwrite key at name tk tn env env' packed (ap (λ r. (r, env')) room) in
    let set = export_argument_lem address key value env nk in
    elim (Bool-cases (same_text name key)) [
      | inl hit ↦
          rw (set, hit) (echo_value string_at name env' log ∙ rw (reads, hit, stored) refl, packed')
      | inr miss ↦
          rw (set, miss)
            (
              echo_value string_at name env' log
                  ∙ rw (reads, miss) (sym (echo_value string_at name env log)),
              packed',
            )
    ]
