-- ===== src/Kernel/Boot/Lines.antt =====
-- The messages of the boot as lines.
use sbuoperating_system.Prelude.{
  ℕ, ◌+◌, ◌≤◌, ◌≡◌, refl, ap, true, List, [], ◌∷◌, ◌++◌, some, arith, length, length-append,
  append-nil,
}
use sbuoperating_system.Memory.{codes}
use sbuoperating_system.Kernel.Console.{Console}
use sbuoperating_system.Kernel.Kprintf.{Arg, number, digit_loop, kprintf}
use sbuoperating_system.Kernel.Kprintf.Conversions.{signed-Prints}
use sbuoperating_system.Kernel.Idt.{idtr_message}
use sbuoperating_system.Kernel.Kprintf.Terminal.{Terminal, ready, type_char, Shows}
use sbuoperating_system.Kernel.Kprintf.Typing.{kprintf-Types}
use sbuoperating_system.Kernel.Kprintf.Lines.{
  type_all, type_all-append, IsAddress, Reads, IsPiece, end, char, conversion, Reads-Types,
}
use sbuoperating_system.Kernel.Boot.Messages.{no_percent}
use sbuoperating_system.Kernel.Boot.Start.{memory_message, physfree_message, tarfs_message}

abbrev pub idtr_line : List ℕ → List ℕ
idtr_line w = codes "s_idtr: lim (4095) base(" ++ (w ++ codes ")\n")

abbrev pub memory_line : List ℕ → List ℕ → List ℕ
memory_line w w' = codes "Available Physical Memory [" ++ (w ++ (codes "-" ++ (w' ++ codes "]\n")))

abbrev pub physfree_line : List ℕ → List ℕ
physfree_line w = codes "physfree " ++ (w ++ codes "\n")

abbrev pub tarfs_line : List ℕ → List ℕ → List ℕ
tarfs_line w w' = codes "tarfs in [" ++ (w ++ (codes ":" ++ (w' ++ codes "]\n")))

literal :
    (text : List ℕ) {fmt : List ℕ} {args : List Arg} {rest : List ℕ}
    → no_percent text ≡ true
    → Reads fmt args rest
    → Reads (text ++ fmt) args (text ++ rest)
unfolding no_percent
literal [] h reads = reads
literal (ch ∷ text) h reads = char (ground (arith, h)) (literal text (ground (arith, h)) reads)

abbrev Ends : List ℕ → Type 0
Ends text = (t : Terminal) → (type_all text t).column ≡ 0

behind : (xs ys : List ℕ) → Ends ys → Ends (xs ++ ys)
behind xs ys ends t = rw (type_all-append xs ys t) (ends (type_all xs t))

newline-Ends : Ends (codes "\n")
unfolding type_char ready
newline-Ends t = ground arith

-- A message whose text is one line, which fits a row.
pub record IsLine (fmt : List ℕ) (args : List Arg) (text : List ℕ) : Type 0 where
  pub reads : Reads fmt args text
  pub short : length text ≤ 80
  pub ends : Ends text

-- Two conversions and three plain texts.
abbrev joined : (before w mid w' after : List ℕ) → List ℕ
joined before w mid w' after = before ++ (w ++ (mid ++ (w' ++ after)))

length-joined :
    (before w mid w' after : List ℕ)
    → length (joined before w mid w' after)
      ≡ length before + length w + length mid + length w' + length after
length-joined before w mid w' after = omega (
  arith,
  length-append before (w ++ (mid ++ (w' ++ after))),
  length-append w (mid ++ (w' ++ after)),
  length-append mid (w' ++ after),
  length-append w' after,
)

joined-IsLine :
    (before mid after : List ℕ) {d d' : ℕ} {arg arg' : Arg} {w w' : List ℕ}
    → (no_percent before ≡ true) × (no_percent mid ≡ true) × (no_percent after ≡ true)
    → Ends after
    → length before + length w + length mid + length w' + length after ≤ 80
    → IsPiece d arg w
    → IsPiece d' arg' w'
    → IsLine
        (before ++ b'%' ∷ d ∷ (mid ++ b'%' ∷ d' ∷ (after ++ [])))
        (arg ∷ arg' ∷ [])
        (joined before w mid w' (after ++ []))
joined-IsLine before mid after {w = w} {w' = w'} (h, k, l) ends short a b = record {
  reads =
      literal before h
        (conversion a (literal mid k (conversion b (literal after l end) refl)) refl);
  short = omega (arith, length-joined before w mid w' (after ++ []), ap length (append-nil after));
  ends = behind before (w ++ (mid ++ (w' ++ (after ++ [])))) (
      behind w (mid ++ (w' ++ (after ++ [])))
        (behind mid (w' ++ (after ++ [])) (behind w' (after ++ []) (rw (append-nil after) ends))));
}

bracket-Ends : Ends (codes "]\n")
bracket-Ends = behind (codes "]") (codes "\n") newline-Ends

module _ {n m : ℕ} {w w' : List ℕ} (a : IsAddress n w) (b : IsAddress m w') where
  pub memory-IsLine : IsLine memory_message (number n ∷ number m ∷ []) (memory_line w w')
  unfolding no_percent
  memory-IsLine =
      joined-IsLine (codes "Available Physical Memory [") (codes "-") (codes "]\n")
        (refl, refl, refl) bracket-Ends (omega (arith, a.short, b.short)) a.piece b.piece

  pub tarfs-IsLine : IsLine tarfs_message (number n ∷ number m ∷ []) (tarfs_line w w')
  unfolding no_percent
  tarfs-IsLine =
      joined-IsLine (codes "tarfs in [") (codes ":") (codes "]\n") (refl, refl, refl) bracket-Ends
        (omega (arith, a.short, b.short)) a.piece b.piece

pub physfree-IsLine :
    {n : ℕ} {w : List ℕ} → IsAddress n w → IsLine physfree_message (number n ∷ []) (physfree_line w)
unfolding no_percent
physfree-IsLine {w = w} a = record {
  reads =
      literal (codes "physfree ") refl (conversion a.piece (literal (codes "\n") refl end) refl);
  short = omega (arith, length-append w (codes "\n"), a.short);
  ends = behind (codes "physfree ") (w ++ codes "\n") (behind w (codes "\n") newline-Ends);
}

-- The limit of the table of the interrupts, 256 gates of 16 bytes less one.
limit-IsPiece : IsPiece b'd' (number 4095) (codes "4095")
limit-IsPiece = record {
  prints =
      signed-Prints 4095 (4 ∷ 0 ∷ 9 ∷ 5 ∷ []) (λ e. absurd (omega (arith, e)))
        (λ e. absurd (omega (arith, e))) (unfold digit_loop in refl);
  some_cell = omega arith;
  one_line = (λ e. cc, (λ e. cc, (λ e. cc, (λ e. cc, tt))));
}

pub idtr-IsLine :
    {n : ℕ} {w : List ℕ}
    → IsAddress n w
    → IsLine idtr_message (number 4095 ∷ number n ∷ []) (idtr_line w)
unfolding no_percent
idtr-IsLine {w = w} a =
    joined-IsLine (codes "s_idtr: lim (") (codes ") base(") (codes ")\n") (refl, refl, refl)
      (behind (codes ")") (codes "\n") newline-Ends) (omega (arith, a.short)) limit-IsPiece a.piece

-- A message that is one line is typed from the start of a row, and ends at the start of one.
pub print_line :
    {fmt : List ℕ} {args : List Arg} {text : List ℕ} (c : Console) (t : Terminal)
    → IsLine fmt args text
    → Shows c t
    → t.column ≡ 0
    → (d : Console) × (kprintf fmt args c ≡ some d)
      × Shows d (type_all text t)
      × ((type_all text t).column ≡ 0)
print_line c t line shows start =
    let (d, ran, shown) =
      kprintf-Types c (Reads-Types t line.reads (omega (arith, line.short))) shows in
    (d, ran, shown, line.ends t)
