-- ===== src/Kernel/Kprintf/Confined.antt =====
-- Formats without conversions stay on the 24 rows of text.
use sbuoperating_system.Prelude.{
  ℕ, ◌+◌, ◌*◌, ◌%◌, ◌<◌, ◌≤◌, ◌≡◌, ◌≢◌, ◌⊎◌, refl, ◌∙◌, false, List, [], ◌∷◌, some, ltb, ◌==◌,
  arith, inl, inr, Bool-cases, All,
}
use sbuoperating_system.Kernel.Console.{
  Console, base_addr, put_cell, finish_at, get_current_address, update_height_width,
}
use sbuoperating_system.Kernel.Console.Scroll.{scroll_lem}
use sbuoperating_system.Kernel.Kprintf.{Arg, handle_new_line, handle_everything_else, kprintf}

-- The cursor stands on a cell of the text, or at the start of the row behind it.
pub record IsOnScreen (c : Console) : Type 0 where
  pub column : c.current_width < 160
  pub even : c.current_width % 2 ≡ 0
  pub row : c.current_height ≤ 24
  pub below : c.current_height ≡ 24 → c.current_width ≡ 0

-- No byte outside the 24 rows differs.
abbrev pub SameOutside : Console → Console → Type 0
SameOutside c d = (a : ℕ) → (a < base_addr) ⊎ (base_addr + 3840 ≤ a) → d.memory a ≡ c.memory a

SameOutside-trans : (c d e : Console) → SameOutside c d → SameOutside d e → SameOutside c e
SameOutside-trans c d e p q a out = q a out ∙ p a out

-- The cursor's address, which lies on the text once the screen has scrolled.
record IsCursor (c : Console) (r : ℕ × Console) : Type 0 where
  address : r.0 ≡ base_addr + (r.1.current_height * 160 + r.1.current_width)
  row : r.1.current_height ≤ 23
  column : r.1.current_width < 160
  even : r.1.current_width % 2 ≡ 0
  same : SameOutside c r.1

get_current-IsCursor : (c : Console) → IsOnScreen c → IsCursor c (get_current_address c)
unfolding get_current_address
get_current-IsCursor c s = elim (Bool-cases (ltb 23 c.current_height)) [
  | inl full ↦ rw full (record {
    address = omega arith;
    row = omega (arith, (scroll_lem c 0).1);
    column = omega (arith, (scroll_lem c 0).2);
    even = omega (arith, (scroll_lem c 0).2);
    same = λ a out. ground (arith, (scroll_lem c a).0);
  })
  | inr room ↦ rw room (record {
    address = omega arith;
    row = ground arith;
    column = s.column;
    even = s.even;
    same = λ a out. refl;
  })
]

cell-IsOnScreen :
    (c : Console) (ch : ℕ) (r : ℕ × Console)
    → IsCursor c r
    → IsOnScreen (finish_at (r.0 + 2, put_cell r.0 ch r.1.memory) r.1)
      × SameOutside c (finish_at (r.0 + 2, put_cell r.0 ch r.1.memory) r.1)
unfolding update_height_width
cell-IsOnScreen c ch (addr, d) k = (
  record { column = omega arith; even = omega arith; row = omega arith; below = omega arith },
  λ a out. ground (arith, k.same a out),
)

new_line-IsOnScreen :
    (c : Console) (r : ℕ × Console)
    → IsCursor c r
    → IsOnScreen (handle_new_line r.1) × SameOutside c (handle_new_line r.1)
unfolding handle_new_line
new_line-IsOnScreen c (addr, d) k =
    let e = record d { current_height = d.current_height + 1; current_width = 0 } in
    let n =
      get_current-IsCursor e
        (record { column = omega arith; even = refl; row = omega arith; below = λ _. refl }) in
    (
      record { column = n.column; even = n.even; row = omega arith; below = omega arith },
      SameOutside-trans c e (get_current_address e).1 k.same n.same,
    )

everything_else-IsOnScreen :
    (c : Console) (ch : ℕ)
    → IsOnScreen c
    → let r = get_current_address c in
      IsOnScreen (handle_everything_else ch r.0 r.1)
      × SameOutside c (handle_everything_else ch r.0 r.1)
unfolding handle_everything_else
everything_else-IsOnScreen c ch s =
    let k = get_current-IsCursor c s in
    let r = get_current_address c in
    elim (Bool-cases (ch == b'\n')) [
      | inl line ↦ rw line (new_line-IsOnScreen c r k)
      | inr other ↦ rw other (cell-IsOnScreen c ch r k)
    ]

-- A format without `%` never fails: from a cursor on the screen `kprintf` leaves the cursor on the
-- screen, scrolled as often as it takes, and changes no byte outside the 24 rows of text, so never
-- the status row.
pub kprintf-confined :
    (fmt : List ℕ) (args : List Arg) (c : Console)
    → All (λ ch. ch ≢ b'%') fmt
    → IsOnScreen c
    → (d : Console) × (kprintf fmt args c ≡ some d) × IsOnScreen d × SameOutside c d
unfolding kprintf
kprintf-confined [] args c h s = (c, refl, s, λ a out. refl)
kprintf-confined (ch ∷ []) args c h s =
    let r = get_current_address c in
    let (on, same) = everything_else-IsOnScreen c ch s in
    let plain : (ch == b'%') ≡ false = ground (arith, h.0) in
    (handle_everything_else ch r.0 r.1, rw plain, on, same)
kprintf-confined (ch ∷ x ∷ fmt) args c h s =
    let r = get_current_address c in
    let (on, same) = everything_else-IsOnScreen c ch s in
    let plain : (ch == b'%') ≡ false = ground (arith, h.0) in
    let (d, ran, on', same') =
      kprintf-confined (x ∷ fmt) args (handle_everything_else ch r.0 r.1) h.1 on in
    (d, rw plain ran, on', SameOutside-trans c (handle_everything_else ch r.0 r.1) d same same')
