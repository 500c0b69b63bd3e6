-- ===== src/Libc/Environ/Laws.antt =====
-- Lookup after assignment.
use sbuoperating_system.Prelude.{
  ℕ, ◌≡◌, ◌↔◌, ◌⊎◌, refl, sym, ap, ◌∙◌, Bool, true, false, not, List, [], ◌∷◌, Option, none, some,
  ◌==◌, if◌then◌else◌, arith, inl, inr, Bool-cases,
}
use sbuoperating_system.Prelude.Int.{ℤ, pos, negsuc}
use sbuoperating_system.Memory.{IsText}
use sbuoperating_system.Libc.Strings.Scans.{compare_text, compare_text-zero, compare_text_self}
use sbuoperating_system.Libc.Environ.{
  EnvironData, Environ, is_zero, same_text, getenv, onto, add_slot, put_slot, or_full, setenv,
}

is_zero_iff : (z : ℤ) → (is_zero z ≡ true) ↔ (z ≡ pos 0)
is_zero_iff z = ground arith

pub same_text_iff : (a b : List ℕ) → IsText a → IsText b → (same_text a b ≡ true) ↔ (a ≡ b)
unfolding same_text
same_text_iff a b h k = (
  λ e. compare_text-zero a b h k ((is_zero_iff (compare_text a b)).0 e),
  λ e. rw e ((is_zero_iff (compare_text b b)).1 (compare_text_self b)),
)

same_text-shared :
    (j a b : List ℕ)
    → IsText j
    → IsText a
    → IsText b
    → same_text j a ≡ true
    → same_text j b ≡ true
    → same_text a b ≡ true
same_text-shared j a b tj ta tb p q =
    (same_text_iff a b ta tb).1
      (sym ((same_text_iff j a tj ta).0 p) ∙ (same_text_iff j b tj tb).0 q)

abbrev AllFree : Environ → Type 0
AllFree [] = Unit
AllFree (none ∷ slots) = AllFree slots
AllFree (some e ∷ slots) = ⊥

-- The used slots come first, and their keys are strings.
abbrev pub IsPacked : Environ → Type 0
IsPacked [] = Unit
IsPacked (none ∷ slots) = AllFree slots
IsPacked (some e ∷ slots) = IsText e.key × IsPacked slots

getenv-AllFree : (key : List ℕ) (slots : Environ) → AllFree slots → getenv key slots ≡ none
unfolding getenv
getenv-AllFree key [] h = refl
getenv-AllFree key (none ∷ slots) h = refl
getenv-AllFree key (some e ∷ slots) h = absurd h

-- What a successful assignment of mode 1 does to one lookup.
abbrev Put : List ℕ → ℕ → List ℕ → Environ → Option Environ → Type 0
Put key value j env none = Unit
Put key value j env (some env') =
    IsPacked env' × (getenv j env' ≡ (if same_text j key then some value else getenv j env))

AllFree-IsPacked : (slots : Environ) → AllFree slots → IsPacked slots
AllFree-IsPacked [] h = tt
AllFree-IsPacked (none ∷ slots) h = h
AllFree-IsPacked (some e ∷ slots) h = absurd h

abbrev pub or_else : Option ℕ → Option ℕ → Option ℕ
or_else none o = o
or_else (some v) o = some v

-- The same for mode 0, where an older value wins.
abbrev Add : List ℕ → ℕ → List ℕ → Environ → Option Environ → Type 0
Add key value j env none = Unit
Add key value j env (some env') =
    IsPacked env'
    × (getenv j env' ≡ or_else (getenv j env) (if same_text j key then some value else none))

Add-onto :
    (key : List ℕ) (value : ℕ) (j : List ℕ) (e : EnvironData) (slots : Environ) (r : Option Environ)
    → IsText e.key
    → Add key value j slots r
    → Add key value j (some e ∷ slots) (onto (some e) r)
unfolding getenv
Add-onto key value j e slots none te p = tt
Add-onto key value j e slots (some slots') te (packed, looked) =
    ((te, packed), ground (arith, looked))

Put-onto :
    (key : List ℕ) (value : ℕ) (j : List ℕ) (e : EnvironData) (slots : Environ) (r : Option Environ)
    → IsText e.key
    → IsText key
    → IsText j
    → same_text e.key key ≡ false
    → Put key value j slots r
    → Put key value j (some e ∷ slots) (onto (some e) r)
unfolding getenv
Put-onto key value j e slots none te tk tj miss p = tt
Put-onto key value j e slots (some slots') te tk tj miss (packed, looked) =
    ((te, packed), ground (arith, looked, same_text-shared j e.key key tj te tk))

or_full-pos :
    (env env' : Environ) (o : Option Environ) → or_full env o ≡ (pos 0, env') → o ≡ some env'
or_full-pos env env' none e = cc (ap (λ p. p.0) e)
or_full-pos env env' (some x) e = ap (λ p. some p.1) e

module _ (key : List ℕ) (value : ℕ) (j : List ℕ) (tk : IsText key) (tj : IsText j) where
  put_slot-Put : (env : Environ) → IsPacked env → Put key value j env (put_slot key value env)
  unfolding put_slot
  put_slot-Put [] h = tt
  put_slot-Put (none ∷ slots) h =
      ((tk, AllFree-IsPacked slots h), unfold getenv in rw (getenv-AllFree j slots h))
  put_slot-Put (some e ∷ slots) h = elim (Bool-cases (same_text e.key key)) [
    | inl hit ↦ rw hit (
      (h.0, h.1),
      unfold getenv in ground (arith, ap (same_text j) ((same_text_iff e.key key h.0 tk).0 hit)),
    )
    | inr miss ↦ rw miss (
        Put-onto key value j e slots (put_slot key value slots) h.0 tk tj miss
          (put_slot-Put slots h.1))
  ]

  add_slot-Add : (env : Environ) → IsPacked env → Add key value j env (add_slot key value env)
  unfolding add_slot
  add_slot-Add [] h = tt
  add_slot-Add (none ∷ slots) h =
      ((tk, AllFree-IsPacked slots h), unfold getenv in rw (getenv-AllFree j slots h))
  add_slot-Add (some e ∷ slots) h =
      Add-onto key value j e slots (add_slot key value slots) h.0 (add_slot-Add slots h.1)

  -- On an environment with the used slots in front and strings as keys, after a successful `setenv`
  -- of mode 1 a lookup of a string gives the new value for its key, and for any other key what it
  -- gave before; the used slots stay in front.
  pub getenv-setenv_overwrite :
      (env env' : Environ)
      → IsPacked env
      → setenv key value 1 env ≡ (pos 0, env')
      → IsPacked env' × (getenv j env' ≡ (if same_text j key then some value else getenv j env))
  unfolding setenv
  getenv-setenv_overwrite env env' h e =
      rw (or_full-pos env env' (put_slot key value env) e) at (put_slot-Put env h)

  -- On an environment with the used slots in front and strings as keys, after a successful `setenv`
  -- of mode 0 a lookup of a string gives what it gave before where that is a value, and else the new
  -- value for its key; the used slots stay in front.
  pub getenv-setenv_add :
      (env env' : Environ)
      → IsPacked env
      → setenv key value 0 env ≡ (pos 0, env')
      → IsPacked env'
        × (getenv j env' ≡ or_else (getenv j env) (if same_text j key then some value else none))
  unfolding setenv
  getenv-setenv_add env env' h e =
      rw (or_full-pos env env' (add_slot key value env) e) at (add_slot-Add env h)

-- Every slot holds a key, and `taken` says of each that it is no place for the new one.
abbrev pub AllTaken : (EnvironData → Bool) → Environ → Type 0
AllTaken taken [] = Unit
AllTaken taken (none ∷ slots) = ⊥
AllTaken taken (some e ∷ slots) = (taken e ≡ true) × AllTaken taken slots

onto-none : (e : Option EnvironData) (r : Option Environ) → (onto e r ≡ none) ↔ (r ≡ none)
onto-none e r = ground arith

put_slot-none :
    (key : List ℕ) (value : ℕ) (env : Environ)
    → (put_slot key value env ≡ none) ↔ AllTaken (λ e. not (same_text e.key key)) env
unfolding put_slot
put_slot-none key value [] = (λ e. tt, λ h. refl)
put_slot-none key value (none ∷ slots) = (λ e. cc, λ h. absurd h)
put_slot-none key value (some x ∷ slots) =
    let (forth, back) = put_slot-none key value slots in
    elim (Bool-cases (same_text x.key key)) [
      | inl hit ↦ rw hit (λ e. cc, λ (h, _). cc)
      | inr miss ↦ rw miss (
        λ e. (refl, forth ((onto-none (some x) (put_slot key value slots)).0 e)),
        λ (_, h). (onto-none (some x) (put_slot key value slots)).1 (back h),
      )
    ]

add_slot-none :
    (key : List ℕ) (value : ℕ) (env : Environ)
    → (add_slot key value env ≡ none) ↔ AllTaken (λ e. true) env
unfolding add_slot
add_slot-none key value [] = (λ e. tt, λ h. refl)
add_slot-none key value (none ∷ slots) = (λ e. cc, λ h. absurd h)
add_slot-none key value (some x ∷ slots) =
    let (forth, back) = add_slot-none key value slots in
    (
      λ e. (refl, forth ((onto-none (some x) (add_slot key value slots)).0 e)),
      λ (_, h). (onto-none (some x) (add_slot key value slots)).1 (back h),
    )

-- A refusal returns -1 and keeps the environment; it happens exactly under `P`, and else 0 is returned.
abbrev pub Refuses : Environ → ℤ × Environ → Type 0 → Type 0
Refuses env r P = ((r ≡ (negsuc 0, env)) ↔ P) × ((r.0 ≡ pos 0) ⊎ (r ≡ (negsuc 0, env)))

or_full-Refuses :
    (env : Environ) (o : Option Environ) (P : Type 0)
    → (o ≡ none) ↔ P
    → Refuses env (or_full env o) P
or_full-Refuses env none P h = ((λ _. h.0 refl, λ _. refl), inr refl)
or_full-Refuses env (some x) P h = ((λ e. cc (ap (λ p. p.0) e), λ p. absurd (cc (h.1 p))), inl refl)

-- `setenv` returns -1 exactly for a mode other than 0 and 1, in mode 0 if no slot is NULL, and in mode 1
-- if besides no slot has the key; the environment is then as it was. Otherwise it returns 0.
pub setenv-refuses :
    (key : List ℕ) (value mode : ℕ) (env : Environ)
    → Refuses env (setenv key value mode env) (
        if mode == 0
        then AllTaken (λ e. true) env
        else if mode == 1
        then AllTaken (λ e. not (same_text e.key key)) env
        else Unit)
unfolding setenv
setenv-refuses key value mode env = elim (Bool-cases (mode == 0)) [
  | inl add ↦ rw add (or_full-Refuses env _ _ (add_slot-none key value env))
  | inr other ↦ rw other (elim (Bool-cases (mode == 1)) [
    | inl put ↦ rw put (or_full-Refuses env _ _ (put_slot-none key value env))
    | inr none_such ↦ rw none_such ((λ _. tt, λ _. refl), inr refl)
  ])
]
