-- ===== src/Libc/Environ/Tests.antt =====
-- The environment at concrete assignments.
use sbuoperating_system.Prelude.{ℕ, ◌≡◌, refl, not, List, [], ◌∷◌, none, some, arith, if◌then◌else◌}
use sbuoperating_system.Prelude.Int.{pos}
use sbuoperating_system.Libc.Environ.{
  Environ, environ_vars, entry, getenv, setenv, put_slot, add_slot, same_text,
}
use sbuoperating_system.Libc.Environ.Laws.{
  IsPacked, getenv-setenv_overwrite, Refuses, AllTaken, setenv-refuses,
}

abbrev path : List ℕ
path = 80 ∷ []

abbrev home : List ℕ
home = 72 ∷ []

abbrev slots : Environ
slots = some (entry path 500) ∷ none ∷ none ∷ []

abbrev overwritten : Environ
overwritten = some (entry path 600) ∷ none ∷ none ∷ []

abbrev added : Environ
added = some (entry path 500) ∷ some (entry path 600) ∷ none ∷ []

slots-IsPacked : IsPacked slots
slots-IsPacked = ((omega arith, tt), tt)

overwrite_runs : setenv path 600 1 slots ≡ (pos 0, overwritten)
unfolding setenv put_slot same_text
overwrite_runs = refl

add_runs : setenv path 600 0 slots ≡ (pos 0, added)
unfolding setenv add_slot
add_runs = refl

empty_lookup : getenv path environ_vars ≡ none
unfolding getenv
empty_lookup = refl

getenv-setenv_overwrite_example :
    IsPacked overwritten
    × (getenv path overwritten ≡ (if same_text path path then some 600 else getenv path slots))
getenv-setenv_overwrite_example =
    getenv-setenv_overwrite path 600 path (omega arith, tt) (omega arith, tt) slots overwritten
      slots-IsPacked overwrite_runs

setenv-refuses_example :
    Refuses
      (some (entry path 500) ∷ [])
      (setenv home 7 1 (some (entry path 500) ∷ []))
      (AllTaken (λ e. not (same_text e.key home)) (some (entry path 500) ∷ []))
setenv-refuses_example = setenv-refuses home 7 1 (some (entry path 500) ∷ [])
