-- ===== src/Libc/Environ.antt =====
-- The environment, libc/getenv.c: 20 slots, each NULL or a pair of a copied key and a value pointer.
-- Keys are the strings that `strcmp` compares; `malloc` is taken to return fresh memory for them.
pub mod Laws
mod Tests
use sbuoperating_system.Prelude.{
  ℕ, Bool, true, false, List, [], ◌∷◌, Option, none, some, ◌==◌, if◌then◌else◌, replicate,
}
use sbuoperating_system.Prelude.Int.{ℤ, pos, negsuc}
use sbuoperating_system.Libc.Strings.Scans.{compare_text}

abbrev pub environ_data_size : ℕ
environ_data_size = 20

-- `struct environ_data`; the value is a pointer that is stored as it is.
pub record EnvironData : Type 0 where
  pub key : List ℕ
  pub value : ℕ

abbrev pub Environ : Type 0
Environ = List (Option EnvironData)

-- `environ_vars[] = {}`
abbrev pub environ_vars : Environ
environ_vars = replicate environ_data_size none

abbrev pub is_zero : ℤ → Bool
is_zero (pos n) = n == 0
is_zero (negsuc n) = false

-- `strcmp(a, b) == 0`
unfoldable pub same_text : List ℕ → List ℕ → Bool
unfolding compare_text
same_text a b = is_zero (compare_text a b)

-- The loop over the slots; the null pointer is `none`.
unfoldable pub getenv : List ℕ → Environ → Option ℕ
getenv key [] = none
getenv key (none ∷ slots) = none
getenv key (some e ∷ slots) =
    let rest = getenv key slots in if same_text key e.key then some e.value else rest

abbrev pub entry : List ℕ → ℕ → EnvironData
entry key value = record { key = key; value = value }

abbrev pub onto {ℓ} : {A : Type ℓ} → A → Option (List A) → Option (List A)
onto x none = none
onto x (some xs) = some (x ∷ xs)

-- The loop of mode 0, `none` if no slot is NULL.
unfoldable pub add_slot : List ℕ → ℕ → Environ → Option Environ
add_slot key value [] = none
add_slot key value (none ∷ slots) = some (some (entry key value) ∷ slots)
add_slot key value (some e ∷ slots) = onto (some e) (add_slot key value slots)

-- The loop of mode 1.
unfoldable pub put_slot : List ℕ → ℕ → Environ → Option Environ
put_slot key value [] = none
put_slot key value (none ∷ slots) = some (some (entry key value) ∷ slots)
put_slot key value (some e ∷ slots) =
    let rest = onto (some e) (put_slot key value slots) in
    if same_text e.key key then some (some (record e { value = value }) ∷ slots) else rest

abbrev pub or_full : Environ → Option Environ → ℤ × Environ
or_full env none = (negsuc 0, env)
or_full env (some env') = (pos 0, env')

unfoldable pub setenv : List ℕ → ℕ → ℕ → Environ → ℤ × Environ
setenv key value mode env =
    if mode == 0
    then or_full env (add_slot key value env)
    else if mode == 1
    then or_full env (put_slot key value env)
    else (negsuc 0, env)
