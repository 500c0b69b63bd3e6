-- ===== src/Kernel/Console/Scroll.antt =====
-- What scrolling does to each byte of memory.
use sbuoperating_system.Prelude.{
  ℕ, zero, suc, ◌+◌, ◌*◌, ◌%◌, ◌≡◌, refl, Bool, true, false, ◌&&◌, ltb, leb, ◌==◌, if◌then◌else◌,
  arith,
}
use sbuoperating_system.Kernel.Console.{
  Memory, base_addr, max_screen_width, poke, Console, scroll_columns, scroll_rows, blank_from,
  scroll,
}

-- `a` stands in the range from `lo` up to `hi`.
abbrev pub within : ℕ → ℕ → ℕ → Bool
within lo hi a = leb lo a && ltb a hi

scroll_columns_lem :
    (k i j : ℕ) (mem : Memory) (a : ℕ)
    → k + j ≡ 160
    → scroll_columns k i j mem a ≡ (
        if within (base_addr + i * 160 + j) (base_addr + i * 160 + 160) a
        then mem (a + 160)
        else mem a)
unfolding scroll_columns
scroll_columns_lem zero i j mem a e = ground arith
scroll_columns_lem (suc k) i j mem a e = ground (
  arith,
  scroll_columns_lem k i (j + 1)
      (poke (base_addr + (i * max_screen_width + j))
        (mem (base_addr + ((i + 1) * max_screen_width + j))) mem)
      a (omega arith),
)

scroll_rows_lem :
    (k i : ℕ) (mem : Memory) (a : ℕ)
    → k + i ≡ 23
    → scroll_rows k i mem a
      ≡ (if within (base_addr + i * 160) (base_addr + 23 * 160) a then mem (a + 160) else mem a)
unfolding scroll_rows
scroll_rows_lem zero i mem a e = ground arith
scroll_rows_lem (suc k) i mem a e =
    let row = scroll_columns max_screen_width i 0 mem in
    ground (
      arith,
      scroll_rows_lem k (i + 1) row a (omega arith),
      scroll_columns_lem 160 i 0 mem a refl,
      scroll_columns_lem 160 i 0 mem (a + 160) refl,
    )

blank_from_lem :
    (k : ℕ) (i : ℕ) (mem : Memory) (a : ℕ)
    → k + i ≡ 160
    → i % 2 ≡ 0
    → blank_from k i mem a ≡ (
        if within (base_addr + 23 * 160 + i) (base_addr + 24 * 160) a
        then (if a % 2 == 0 then 0 else 7)
        else mem a)
unfolding blank_from
blank_from_lem zero i mem a e ev = ground arith
blank_from_lem (suc zero) i mem a e ev = absurd (omega arith)
blank_from_lem (suc (suc k)) i mem a e ev =
    let both : Memory =
      poke (base_addr + (23 * max_screen_width + i + 1)) 0x07
        (poke (base_addr + (23 * max_screen_width + i)) 0 mem) in
    let ih = blank_from_lem k (i + 1 + 1) both a (omega arith) (omega arith) in
    let even : (i % 2 == 0) ≡ true = ground arith in
    let odd : ((i + 1) % 2 == 0) ≡ false = ground arith in rw (even, odd) (ground (arith, ih))

-- Scrolling moves each of the rows 1 to 23 up by one, byte for byte, blanks row 23 with the
-- attribute 7, changes no other byte, and puts the cursor at the start of row 23.
pub scroll_lem :
    (c : Console) (a : ℕ)
    → ((scroll c).memory a ≡ (
        if within base_addr (base_addr + 23 * 160) a
        then c.memory (a + 160)
        else if within (base_addr + 23 * 160) (base_addr + 24 * 160) a
        then (if a % 2 == 0 then 0 else 7)
        else c.memory a))
      × ((scroll c).current_height ≡ 23)
      × ((scroll c).current_width ≡ 0)
unfolding scroll
scroll_lem c a = (
  ground (
    arith,
    blank_from_lem 160 0 (scroll_rows 23 0 c.memory) a refl refl,
    scroll_rows_lem 23 0 c.memory a refl,
  ),
  refl,
  refl,
)
