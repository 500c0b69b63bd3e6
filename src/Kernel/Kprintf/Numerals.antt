-- ===== src/Kernel/Kprintf/Numerals.antt =====
-- The digits that the loops produce are the numeral of the number.
use native.Mathlib.Nat.{pow-suc, pow-zero, div-lt_iff_lt-mul}
use mathlib.Core.Path.{subst}
use sbuoperating_system.Prelude.{
  ℕ, zero, suc, ◌+◌, ◌*◌, ◌/◌, ◌%◌, ◌^◌, ◌<◌, ◌≡◌, ◌≢◌, refl, sym, ap, ◌∙◌, false, List, [], ◌∷◌,
  ◌++◌, some, map, append-nil, append_assoc, ◌==◌, arith, All, All-append,
}
use mathlib.Core.List.{map-append, map-id}
use sbuoperating_system.Kernel.Kprintf.{digit_loop, decimal, max_digits}

-- The number that digits stand for, behind those read before them.
unfoldable pub value_from : ℕ → ℕ → List ℕ → ℕ
value_from radix acc [] = acc
value_from radix acc (d ∷ ds) = value_from radix (acc * radix + d) ds

abbrev pub LeadingNonzero : List ℕ → Type 0
LeadingNonzero [] = Unit
LeadingNonzero (d ∷ ds) = d ≢ 0

-- `ds` is the numeral of `num`: its value, digits below the radix, and no leading zero.
pub record IsNumeral (radix num : ℕ) (ds : List ℕ) : Type 0 where
  pub value : value_from radix 0 ds ≡ num
  pub digits : All (λ d. d < radix) ds
  pub leading : LeadingNonzero ds

value_from-append :
    (radix acc : ℕ) (xs ys : List ℕ)
    → value_from radix acc (xs ++ ys) ≡ value_from radix (value_from radix acc xs) ys
unfolding value_from
value_from-append radix acc [] ys = refl
value_from-append radix acc (x ∷ xs) ys = value_from-append radix (acc * radix + x) xs ys

LeadingNonzero-snoc :
    (xs : List ℕ) (d : ℕ) → LeadingNonzero xs → (xs ≡ [] → d ≢ 0) → LeadingNonzero (xs ++ d ∷ [])
LeadingNonzero-snoc [] d h k = k refl
LeadingNonzero-snoc (x ∷ xs) d h k = h

-- One more digit behind the numeral of `num / radix` gives that of `num`.
IsNumeral-snoc :
    (radix num : ℕ) (ds : List ℕ)
    → 1 < radix
    → 0 < num
    → IsNumeral radix (num / radix) ds
    → IsNumeral radix num (ds ++ num % radix ∷ [])
IsNumeral-snoc radix num ds r p n = record {
  value =
      value_from-append radix 0 ds (num % radix ∷ [])
      ∙ (unfold value_from in rw n.value (grind arith));
  digits = All-append (λ d. d < radix) ds (num % radix ∷ []) n.digits (omega arith, tt);
  leading = LeadingNonzero-snoc ds (num % radix) n.leading λ e z. empty_quotient e z;
}
  where
    empty_quotient : ds ≡ [] → num % radix ≡ 0 → ⊥
    empty_quotient e z =
        let q : num / radix ≡ 0 =
          sym n.value ∙ ap (value_from radix 0) e ∙ (unfold value_from in refl) in
        grind arith

IsNumeral-zero : (radix : ℕ) → IsNumeral radix 0 []
unfolding value_from
IsNumeral-zero radix = record { value = refl; digits = tt; leading = tt }

-- With enough places the loop ends, and its stack is the numeral of `num`, stored digit by digit, in
-- front of what was there.
pub digit_loop-IsNumeral :
    (radix : ℕ) (store : ℕ → ℕ) (k num : ℕ) (stack : List ℕ)
    → 1 < radix
    → num < radix ^ k
    → (ds : List ℕ) × (digit_loop radix store k num stack ≡ some (map store ds ++ stack))
      × IsNumeral radix num ds
unfolding digit_loop
digit_loop-IsNumeral radix store zero num stack r h =
    let z : num ≡ 0 = omega (arith, pow-zero radix) in rw z ([], refl, IsNumeral-zero radix)
digit_loop-IsNumeral radix store (suc k) zero stack r h = ([], refl, IsNumeral-zero radix)
digit_loop-IsNumeral radix store (suc k) (suc n) stack r h =
    let more : (suc n == 0) ≡ false = ground arith in
    let (ds, ran, num) =
      digit_loop-IsNumeral radix store k (suc n / radix) (store (suc n % radix) ∷ stack) r
        quotient_below in
    (
      ds ++ suc n % radix ∷ [],
      rw more (ran ∙ ap some (rw (map-append, append_assoc))),
      IsNumeral-snoc radix (suc n) ds r (omega arith) num,
    )
  where
    quotient_below : suc n / radix < radix ^ k
    quotient_below =
        (div-lt_iff_lt-mul (omega arith)).1 (subst (λ (t : ℕ). suc n < t) (pow-suc radix k) h)

-- The array of 100 places holds the decimal digits of every word up to 64 bits.
pub decimal-IsNumeral :
    (num : ℕ) → num < 2 ^ 64 → (ds : List ℕ) × (decimal num ≡ some ds) × IsNumeral 10 num ds
decimal-IsNumeral num h =
    let (ds, ran, n) =
      digit_loop-IsNumeral 10 (λ d. d) max_digits num [] (omega arith) (omega arith) in
    (ds, ran ∙ ap some (rw (map-id, append-nil)), n)
