-- ===== src/Kernel/Boot/Messages.antt =====
-- The messages of the boot find their arguments, and the loops of `start` end.
use sbuoperating_system.Prelude.{
  ℕ, zero, suc, ◌+◌, ◌-◌, ◌*◌, ◌%◌, ◌^◌, ◌<◌, ◌≤◌, ◌≡◌, ◌≢◌, refl, Bool, true, false, not, ◌&&◌,
  List, [], ◌∷◌, ◌++◌, some, ltb, ◌==◌, arith, inl, inr, Bool-cases,
}
use sbuoperating_system.Memory.{codes}
use sbuoperating_system.Kernel.Console.{Console}
use sbuoperating_system.Kernel.Kprintf.{Arg, number}
use sbuoperating_system.Kernel.Kprintf.Total.{Fits, done, plain, numeric, kprintf-Fits}
use sbuoperating_system.Kernel.Idt.{idtr_message}
use sbuoperating_system.Kernel.Boot.{set_up_welcome_screen}
use sbuoperating_system.Kernel.Boot.Start.{
  Image, memory_message, physfree_message, tarfs_message, find_module, smap_base, smap_length,
  smap_type, print_entry, print_smap, start_screen,
}

unfoldable pub no_percent : List ℕ → Bool
no_percent [] = true
no_percent (ch ∷ text) = not (ch == b'%') && no_percent text

plain_text :
    (text : List ℕ) {fmt : List ℕ} {args : List Arg}
    → no_percent text ≡ true
    → Fits fmt args
    → Fits (text ++ fmt) args
unfolding no_percent
plain_text [] h fits = fits
plain_text (ch ∷ text) h fits = plain (ground (arith, h)) (plain_text text (ground (arith, h)) fits)

pub idtr_message-Fits : (n m : ℕ) → Fits idtr_message (number n ∷ number m ∷ [])
unfolding no_percent
idtr_message-Fits n m = plain_text (codes "s_idtr: lim (") refl (
    numeric refl
      (plain_text (codes ") base(") refl (numeric refl (plain_text (codes ")\n") refl done))))

memory_message-Fits : (n m : ℕ) → Fits memory_message (number n ∷ number m ∷ [])
unfolding no_percent
memory_message-Fits n m =
    plain_text (codes "Available Physical Memory [") refl (
      numeric refl
        (plain_text (codes "-") refl (numeric refl (plain_text (codes "]\n") refl done))))

physfree_message-Fits : (n : ℕ) → Fits physfree_message (number n ∷ [])
unfolding no_percent
physfree_message-Fits n =
    plain_text (codes "physfree ") refl (numeric refl (plain_text (codes "\n") refl done))

tarfs_message-Fits : (n m : ℕ) → Fits tarfs_message (number n ∷ number m ∷ [])
unfolding no_percent
tarfs_message-Fits n m =
    plain_text (codes "tarfs in [") refl (
      numeric refl
        (plain_text (codes ":") refl (numeric refl (plain_text (codes "]\n") refl done))))

-- From word `p`, `n` modules that are not 0x9001 lead to the one at word `q`, which is.
pub data Leads (words : ℕ → ℕ) (q : ℕ) : ℕ → ℕ → Type 0 where
  here : {p n : ℕ} → p ≡ q → words p ≡ 0x9001 → Leads words q p n
  next :
      {p n : ℕ}
      → words p ≢ 0x9001
      → Leads words q (p + (words (p + 1) + 2) % 2 ^ 32) n
      → Leads words q p (suc n)

module _ (words : ℕ → ℕ) where
  pub find_module-Leads :
      {q : ℕ} (fuel n p : ℕ) → Leads words q p n → n < fuel → find_module words fuel p ≡ some q
  unfolding find_module
  find_module-Leads zero n p leads h = elim h [ ]
  find_module-Leads (suc fuel) n p (here e f) h = rw (f, e)
  find_module-Leads (suc fuel) (suc n) p (next ne later) h =
      let off : (words p == 0x9001) ≡ false = ground (arith, ne) in
      let p' = p + (words (p + 1) + 2) % 2 ^ 32 in
      rw (off, find_module-Leads fuel n p' later (omega arith))

  print_entry-Returns : (s : ℕ) (c : Console) → (d : Console) × (print_entry words s c ≡ some d)
  unfolding print_entry
  print_entry-Returns s c =
      elim (Bool-cases (smap_type words s == 1 && not (smap_length words s == 0))) [
        | inl shown ↦
            let stop = (smap_base words s + smap_length words s) % 2 ^ 64 in
            let (d, ran) = kprintf-Fits (memory_message-Fits (smap_base words s) stop) c in
            (d, rw shown ran)
        | inr skipped ↦ (c, rw skipped)
      ]

  print_smap-Returns :
      (fuel j s end : ℕ) (c : Console)
      → j < fuel
      → end ≤ 4 * s + 20 * j
      → (d : Console) × (print_smap words fuel s end c ≡ some d)
  unfolding print_smap
  print_smap-Returns zero j s end c h k = elim h [ ]
  print_smap-Returns (suc fuel) j s end c h k = elim (Bool-cases (ltb (4 * s) end)) [
    | inl more ↦
        let (c', printed) = print_entry-Returns s c in
        let (d, ran) =
          print_smap-Returns fuel (j - 1) (s + 5) end c' (ground arith) (ground arith) in
        (d, rw (more, printed, ran))
    | inr last ↦ (c, rw last)
  ]

  -- `start` finds its module after at most `fuel` others, its loop over the memory map ends, and every
  -- message finds its arguments.
  pub start_screen-Returns :
      {q n fuel : ℕ} (image : Image) (c : Console)
      → Leads words q 0 n
      → n < fuel
      → (d : Console) × (start_screen words fuel image c ≡ some d)
  unfolding start_screen
  start_screen-Returns {q = q} {n = n} {fuel = fuel} image c leads h =
      let found = find_module-Leads fuel n 0 leads h in
      let w = words (q + 1) in
      let (c₁, mapped) =
        print_smap-Returns (suc w) w (q + 2) (4 * q + w + 2 * 4) c (omega arith) (omega arith) in
      let (c₂, free) = kprintf-Fits (physfree_message-Fits image.physfree) c₁ in
      let (c₃, tarfs) = kprintf-Fits (tarfs_message-Fits image.tarfs_start image.tarfs_end) c₂ in
      (
        record c₃ { memory = set_up_welcome_screen c₃.memory },
        rw (start_screen, found, mapped, free, tarfs),
      )
