-- ===== src/Shell/Parser/Trim.antt =====
-- What trimming takes off.
use mathlib.Core.List.{reverse, reverse-cons, reverse-append, reverse-reverse}
use mathlib.Core.Bool.{or_assoc, or-false}
use sbuoperating_system.Prelude.{
  ℕ, zero, suc, ◌+◌, ◌-◌, ◌<◌, ◌≡◌, refl, ap, ◌∙◌, Bool, true, false, ◌||◌, List, [], ◌∷◌, ◌++◌,
  ltb, ◌==◌, arith, length, length-append, length-reverse, length-replicate, replicate, All,
  All-append,
}
use sbuoperating_system.Shell.Parser.{ok, skip_spaces, strip_end, trim, input_length}

-- The bytes that the end of the input is stripped of.
abbrev pub is_tail : ℕ → Bool
is_tail ch = ch == b' ' || ch == b'\n' || ch == b'&'

abbrev pub has_ampersand : List ℕ → Bool
has_ampersand [] = false
has_ampersand (ch ∷ s) = ch == b'&' || has_ampersand s

-- `body` begins with no space and ends in a byte that is kept.
abbrev pub StartsSolid : List ℕ → Type 0
StartsSolid [] = ⊥
StartsSolid (ch ∷ s) = (ch == b' ') ≡ false

abbrev pub EndsSolid : List ℕ → Type 0
EndsSolid [] = ⊥
EndsSolid (ch ∷ []) = is_tail ch ≡ false
EndsSolid (ch ∷ d ∷ s) = EndsSolid (d ∷ s)

skip_spaces-replicate :
    (n : ℕ) (body rest : List ℕ)
    → StartsSolid body
    → skip_spaces (replicate n b' ' ++ (body ++ rest)) ≡ body ++ rest
unfolding skip_spaces
skip_spaces-replicate zero [] rest h = absurd h
skip_spaces-replicate zero (ch ∷ body) rest h = rw h
skip_spaces-replicate (suc n) body rest h = skip_spaces-replicate n body rest h

abbrev HeadSolid : List ℕ → Type 0
HeadSolid [] = ⊥
HeadSolid (ch ∷ s) = is_tail ch ≡ false

strip_end-tail :
    (tail body : List ℕ) (background : Bool)
    → All (λ ch. is_tail ch ≡ true) tail
    → HeadSolid body
    → strip_end (tail ++ body) background ≡ (body, has_ampersand tail || background)
unfolding strip_end
strip_end-tail [] [] b h k = absurd k
strip_end-tail [] (ch ∷ body) b h k = rw k
strip_end-tail (ch ∷ tail) body b h k =
    let ih = strip_end-tail tail body (ch == b'&' || b) h.1 k in
    rw h.0 (ih ∙ ap (λ (t : Bool). (body, t)) (move (ch == b'&') b))
  where
    move : (x y : Bool) → (has_ampersand tail || (x || y)) ≡ ((x || has_ampersand tail) || y)
    move x y = ground arith

-- A body that ends in a kept byte, taken apart at that byte.
EndsSolid-split :
    (body : List ℕ)
    → EndsSolid body
    → (front : List ℕ) × (last : ℕ) × (body ≡ front ++ last ∷ []) × (is_tail last ≡ false)
EndsSolid-split [] h = absurd h
EndsSolid-split (ch ∷ []) h = ([], ch, refl, h)
EndsSolid-split (ch ∷ d ∷ s) h =
    let (front, last, e, k) = EndsSolid-split (d ∷ s) h in (ch ∷ front, last, ap (◌∷◌ ch) e, k)

has_ampersand-append :
    (s t : List ℕ) → has_ampersand (s ++ t) ≡ (has_ampersand s || has_ampersand t)
has_ampersand-append [] t = refl
has_ampersand-append (ch ∷ s) t = rw (has_ampersand-append s t, or_assoc)

has_ampersand-reverse : (s : List ℕ) → has_ampersand (reverse s) ≡ has_ampersand s
has_ampersand-reverse [] = refl
has_ampersand-reverse (ch ∷ s) =
    ap has_ampersand (reverse-cons ch s)
    ∙ has_ampersand-append (reverse s) (ch ∷ [])
    ∙ ground (arith, has_ampersand-reverse s)

All-reverse : (P : ℕ → Type 0) (s : List ℕ) → All P s → All P (reverse s)
All-reverse P [] h = tt
All-reverse P (ch ∷ s) h =
    rw (reverse-cons ch s) (All-append P (reverse s) (ch ∷ []) (All-reverse P s h.1) (h.0, tt))

-- Around a body that begins with no space and ends in none of space, newline and `&`, `trim` takes off
-- any spaces before it and any of the three bytes behind it, and reports whether an `&` was among
-- those; the body with its leading spaces must be at most 498 bytes long.
pub trim-body :
    (n : ℕ) (body tail : List ℕ)
    → StartsSolid body
    → EndsSolid body
    → All (λ ch. is_tail ch ≡ true) tail
    → n + length body + 1 < input_length
    → trim (replicate n b' ' ++ (body ++ tail)) ≡ ok (body, has_ampersand tail)
unfolding trim
trim-body n body tail st en al fits =
    rw (skip_spaces-replicate n body tail st, stripped, room)
      (ap (λ t. ok (t, has_ampersand tail)) (reverse-reverse body))
  where
    stripped : strip_end (reverse (body ++ tail)) false ≡ (reverse body, has_ampersand tail)
    stripped =
        let (front, last, e, solid) = EndsSolid-split body en in
        let head : HeadSolid (reverse body) = rw (e, reverse-append front (last ∷ [])) solid in
        rw (reverse-append body tail) (
          strip_end-tail (reverse tail) (reverse body) false (All-reverse _ tail al) head
          ∙ ap (λ (t : Bool). (reverse body, t)) (or-false _ ∙ has_ampersand-reverse tail))

    room :
        ltb
          (length (replicate n b' ' ++ (body ++ tail))
            - length (body ++ tail)
            + length (reverse body)
            + 1)
          input_length
        ≡ true
    room =
        let total = length-append (replicate n b' ') (body ++ tail) in
        ground (arith, total, length-replicate {A = ℕ} n b' ', length-reverse body)
