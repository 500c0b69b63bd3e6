-- ===== src/Kernel/Boot/Typed.antt =====
-- The screen that `start` leaves, as a terminal on which the messages have been typed.
use mathlib.Core.Path.{subst}
use sbuoperating_system.Prelude.{
  ℕ, zero, suc, ◌+◌, ◌-◌, ◌*◌, ◌%◌, ◌^◌, ◌<◌, ◌≤◌, ◌≡◌, ◌≢◌, ◌⊎◌, inl, inr, refl, ◌∙◌, false, not,
  ◌&&◌, List, [], ◌++◌, some, ltb, ◌==◌, arith, Bool-cases,
}
use sbuoperating_system.Kernel.Console.{Console, base_addr}
use sbuoperating_system.Kernel.Kprintf.Terminal.{Terminal, Shows}
use sbuoperating_system.Kernel.Kprintf.Lines.{type_all, type_all-append, Shown, text-IsAddress}
use sbuoperating_system.Kernel.Boot.{set_up_welcome_screen}
use sbuoperating_system.Kernel.Boot.Screen.{set_up_welcome_screen_lem}
use sbuoperating_system.Kernel.Boot.Messages.{Leads, find_module-Leads}
use sbuoperating_system.Kernel.Boot.Lines.{
  memory_line, physfree_line, tarfs_line, memory-IsLine, physfree-IsLine, tarfs-IsLine, print_line,
}
use sbuoperating_system.Kernel.Boot.Start.{
  Image, smap_base, smap_length, smap_type, print_entry, print_smap, start_screen,
}

-- `Map words end s text`: the entries of the memory map from word `s` to the byte `end`, of 5 words each,
-- are told of by `text`: a line for each entry of usable memory that is not empty, with its first address
-- and the one behind it.
pub data Map (words : ℕ → ℕ) (end : ℕ) : ℕ → List ℕ → Type 0 where
  over : {s : ℕ} {text : List ℕ} → end ≤ 4 * s → text ≡ [] → Map words end s text
  usable :
      {s s' : ℕ} {w w' rest text : List ℕ}
      → 4 * s < end
      → smap_type words s ≡ 1
      → smap_length words s ≢ 0
      → Shown (smap_base words s % 2 ^ 64) w
      → Shown ((smap_base words s + smap_length words s) % 2 ^ 64) w'
      → s' ≡ s + 5
      → Map words end s' rest
      → text ≡ memory_line w w' ++ rest
      → Map words end s text
  skipped :
      {s s' : ℕ} {text : List ℕ}
      → 4 * s < end
      → (smap_type words s ≢ 1) ⊎ (smap_length words s ≡ 0)
      → s' ≡ s + 5
      → Map words end s' text
      → Map words end s text

-- The screen shows the text typed on `t`, and the cursor is at the start of a row.
record Typed (text : List ℕ) (t : Terminal) (d : Console) : Type 0 where
  shows : Shows d (type_all text t)
  column : (type_all text t).column ≡ 0

Typed-append :
    (xs ys : List ℕ) (t : Terminal) (d : Console)
    → Typed ys (type_all xs t) d
    → Typed (xs ++ ys) t d
Typed-append xs ys t d typed = record {
  shows = rw (type_all-append xs ys t) typed.shows;
  column = rw (type_all-append xs ys t) typed.column;
}

not_usable : (x y : ℕ) → (x == 1 && not (y == 0)) ≡ false → (x ≢ 1) ⊎ (y ≡ 0)
not_usable x y h = elim (Bool-cases (y == 0)) [
  | inl z ↦ inr (ground (arith, z))
  | inr nz ↦ inl (λ e. ground (arith, h, nz, e))
]

module _ (words : ℕ → ℕ) where
  print_smap-Typed :
      (fuel j s end : ℕ) (c : Console) (t : Terminal)
      → j < fuel
      → end ≤ 4 * s + 20 * j
      → Shows c t
      → t.column ≡ 0
      → (text : List ℕ) × (d : Console) × Map words end s text
        × (print_smap words fuel s end c ≡ some d)
        × Typed text t d
  unfolding print_smap print_entry
  print_smap-Typed zero j s end c t h k shows start = elim h [ ]
  print_smap-Typed (suc fuel) j s end c t h k shows start = elim (Bool-cases (ltb (4 * s) end)) [
    | inr last ↦ (
      [],
      c,
      over (ground (arith, last)) refl,
      rw last refl,
      record { shows = shows; column = start },
    )
    | inl more ↦ elim (Bool-cases (smap_type words s == 1 && not (smap_length words s == 0))) [
      | inr other ↦
          let (text, d, map, ran, typed) =
            print_smap-Typed fuel (j - 1) (s + 5) end c t (ground arith) (ground arith) shows
              start in
          (
            text,
            d,
            skipped (ground (arith, more))
                (not_usable (smap_type words s) (smap_length words s) other) refl map,
            rw (more, other) ran,
            typed,
          )
      | inl shown ↦
          let stop = (smap_base words s + smap_length words s) % 2 ^ 64 in
          let same : stop % 2 ^ 64 ≡ stop = omega arith in
          let (w, a) = text-IsAddress (smap_base words s) in
          let (w', b) = text-IsAddress stop in
          let line = memory_line w w' in
          let (c', printed, shows', start') = print_line c t (memory-IsLine a b) shows start in
          let (rest, d, map, ran, typed) =
            print_smap-Typed fuel (j - 1) (s + 5) end c' (type_all line t) (ground arith)
              (ground arith) shows' start' in
          (
            line ++ rest,
            d,
            usable (ground (arith, more)) (ground (arith, shown)) (λ e. ground (arith, shown, e))
                a.shown (subst (λ x. Shown x w') same b.shown) refl map refl,
            rw (more, shown, printed) ran,
            Typed-append line rest t d typed,
          )
    ]
  ]

-- The status row is below the rows of the terminal.
welcome-Shows :
    (c : Console) (t : Terminal)
    → Shows c t
    → Shows (record c { memory = set_up_welcome_screen c.memory }) t
welcome-Shows c t s = record {
  height = s.height;
  width = s.width;
  on_row = s.on_row;
  on_screen = s.on_screen;
  below = s.below;
  cells = λ r k p q.
      (set_up_welcome_screen_lem c.memory 0 0 b'T' b'K' (base_addr + (160 * r + 2 * k)) refl refl
        (inl (omega arith))).2
      ∙ s.cells r k p q;
}

-- The text of `start`: the lines on the memory, the line on its free part and the line on the archive.
pub record IsStartText (words : ℕ → ℕ) (q : ℕ) (image : Image) (text : List ℕ) : Type 0 where
  pub map : List ℕ
  pub free : List ℕ
  pub from : List ℕ
  pub to : List ℕ
  pub is_map : Map words (4 * q + words (q + 1) + 2 * 4) (q + 2) map
  pub is_free : Shown (image.physfree % 2 ^ 64) free
  pub is_from : Shown (image.tarfs_start % 2 ^ 64) from
  pub is_to : Shown (image.tarfs_end % 2 ^ 64) to
  pub whole : text ≡ map ++ (physfree_line free ++ tarfs_line from to)

-- If the loader's modules lead to 0x9001, `start` returns from a screen that shows a terminal with the cursor
-- at the start of a row, and its screen shows the terminal on which its text has been typed, with the wraps
-- and the scrolling that this takes: in the order of the memory map a line for each entry of usable memory
-- that is not empty and for no other entry, then the end of the kernel and the two ends of the archive, each
-- address in hexadecimal behind a cell with a zero, or the digit 0.
pub start_screen-Types :
    (words : ℕ → ℕ) {q n fuel : ℕ} (image : Image) (c : Console) (t : Terminal)
    → Leads words q 0 n
    → n < fuel
    → Shows c t
    → t.column ≡ 0
    → (text : List ℕ) × (d : Console) × IsStartText words q image text
      × (start_screen words fuel image c ≡ some d)
      × Shows d (type_all text t)
unfolding start_screen
start_screen-Types words {q = q} {n = n} {fuel = fuel} image c t leads h shows start =
    let found = find_module-Leads words fuel n 0 leads h in
    let w = words (q + 1) in
    let (map, c₁, is_map, mapped, typed) =
      print_smap-Typed words (suc w) w (q + 2) (4 * q + w + 2 * 4) c t (omega arith) (omega arith)
        shows start in
    let (p, a) = text-IsAddress image.physfree in
    let (from, b) = text-IsAddress image.tarfs_start in
    let (to, e) = text-IsAddress image.tarfs_end in
    let t₁ = type_all map t in
    let t₂ = type_all (physfree_line p) t₁ in
    let (c₂, free, shows₂, start₂) =
      print_line c₁ t₁ (physfree-IsLine a) typed.shows typed.column in
    let (c₃, tarfs, shows₃, start₃) = print_line c₂ t₂ (tarfs-IsLine b e) shows₂ start₂ in
    let whole : type_all (map ++ (physfree_line p ++ tarfs_line from to)) t
        ≡ type_all (tarfs_line from to) t₂ =
      type_all-append map (physfree_line p ++ tarfs_line from to) t
      ∙ type_all-append (physfree_line p) (tarfs_line from to) t₁ in
    (
      map ++ (physfree_line p ++ tarfs_line from to),
      record c₃ { memory = set_up_welcome_screen c₃.memory },
      record {
        map = map;
        free = p;
        from = from;
        to = to;
        is_map = is_map;
        is_free = a.shown;
        is_from = b.shown;
        is_to = e.shown;
        whole = refl;
      },
      rw (start_screen, found, mapped, free, tarfs),
      rw whole (welcome-Shows c₃ _ shows₃),
    )
