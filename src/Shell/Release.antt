-- ===== src/Shell/Release.antt =====
-- The release of parsed commands, `freeCommandArgument` of bin/sbush/parser.c and
-- `freeAllParsedCommandArguments` of bin/sbush/sbush.c, over the bytes of the memory, in which the headers of
-- the blocks stand. `fuel` is for `strlen` and for the loop of `free`; `none` is a fault, or too little fuel.
pub mod Returns
mod Tests
use sbuoperating_system.Prelude.{
  ℕ, ◌+◌, ◌≡◌, ◌≢◌, Bool, false, List, [], ◌∷◌, Option, none, some, ◌==◌, if◌then◌else◌,
}
use sbuoperating_system.Memory.{null}
use sbuoperating_system.Libc.Strings.{strlen, memset}
use sbuoperating_system.Libc.Malloc.Bytes.{
  Store, all_mapped, addr_of, next_of, free_block, free_block-faults,
}

-- The pointers of a `commandArgument`; the argument count is the length of the list.
pub record Pointers : Type 0 where
  pub trimmed_input : ℕ
  pub command : ℕ
  pub arguments : List ℕ

-- `strlen`, whose bytes with the zero behind them have to be mapped.
pub length_at : ℕ → ℕ → Store → Option ℕ
length_at fuel p s = elim (strlen fuel s.memory p) [
  | none ↦ none
  | some len ↦ if p == null then some len else if all_mapped (len + 1) p s then some len else none
]

-- `memset` of `len` bytes to zero.
pub clear : ℕ → ℕ → Store → Option Store
clear p len s =
    let cleared = record s { memory = (memset p 0 len s.memory).1 } in
    if p == null then some s else if all_mapped len p s then some cleared else none

-- The header of the first block is not that of the trimmed input, and links to an address that is neither
-- null nor mapped.
pub record IsOverwritten (c : Pointers) (s : Store) : Type 0 where
  pub real : s.root ≢ null
  pub pointer : c.trimmed_input ≢ null
  pub other : addr_of s.root s ≢ c.trimmed_input
  pub linked : next_of s.root s ≢ null
  pub unmapped : all_mapped 24 (next_of s.root s) s ≡ false

module _ (munmap : ℕ → ℕ → (ℕ → Bool) → ℕ → Bool) where
  -- The loop over the arguments. It clears the command, which is released already, in place of the argument.
  -- `free` of the null pointer does nothing, so the test in front of it is left to `free`.
  unfoldable pub free_arguments : ℕ → ℕ → List ℕ → Store → Option Store
  free_arguments fuel command [] s = some s
  free_arguments fuel command (argument ∷ arguments) s = elim (length_at fuel argument s) [
    | none ↦ none
    | some len ↦ elim (clear command len s) [
      | none ↦ none
      | some s' ↦ elim (free_block munmap fuel argument s') [
        | none ↦ none
        | some s'' ↦ free_arguments fuel command arguments s''
      ]
    ]
  ]

  -- The release of the command, where there is one.
  unfoldable pub free_command : ℕ → ℕ → Store → Option Store
  free_command fuel command s =
      let released : Option Store = elim (length_at fuel command s) [
        | none ↦ none
        | some len ↦ elim (clear command len s) [
          | none ↦ none
          | some s' ↦ free_block munmap fuel command s'
        ]
      ] in
      if command == null then some s else released

  unfoldable pub free_command_argument : ℕ → Pointers → Store → Option Store
  free_command_argument fuel c s = elim (free_block munmap fuel c.trimmed_input s) [
    | none ↦ none
    | some s' ↦ elim (free_command fuel c.command s') [
      | none ↦ none
      | some s'' ↦ free_arguments fuel c.command c.arguments s''
    ]
  ]

  -- A parse that gave NULL is passed over.
  unfoldable pub free_all_parsed_command_arguments :
      ℕ → List (Option Pointers) → Store → Option Store
  free_all_parsed_command_arguments fuel [] s = some s
  free_all_parsed_command_arguments fuel (none ∷ cs) s = free_all_parsed_command_arguments fuel cs s
  free_all_parsed_command_arguments fuel (some c ∷ cs) s = elim (free_command_argument fuel c s) [
    | none ↦ none
    | some s' ↦ free_all_parsed_command_arguments fuel cs s'
  ]

  -- The release of a command faults at once.
  pub IsOverwritten-faults :
      (fuel : ℕ) {c : Pointers} {s : Store}
      → IsOverwritten c s
      → free_command_argument fuel c s ≡ none
  unfolding free_command_argument
  IsOverwritten-faults fuel {c} {s} o = rw (
    free_command_argument,
    free_block-faults munmap fuel c.trimmed_input s o.real o.pointer o.other o.linked o.unmapped,
  )
