-- ===== src/HostValidation/Digits.antt =====
-- Decimal digits and dots: what `split` and `Number` make of a dotted address.
use supamail.Common.{
  ℕ, ◌<◌, ◌≡◌, refl, true, false, some, List, [], ◌∷◌, ◌++◌, ◌==◌, ap, ◌∙◌, Bool-cases, inl, inr,
  arith, All,
}
use supamail.HostValidation.{split, number_of, decimal, dotted}

pub number_of-decimal : (n : ℕ) → n < 256 → number_of 0 (decimal n) ≡ some n
unfolding number_of decimal
number_of-decimal n h = ground arith

-- No unit of a decimal is a dot.
abbrev pub Without : ℕ → List ℕ → Type 0
Without separator = All (λ c. (c == separator) ≡ false)

decimal-Without : (n : ℕ) → n < 256 → Without 46 (decimal n)
unfolding decimal
decimal-Without n h = ground arith

pub split-nil :
    (separator : ℕ) (piece : List ℕ) → Without separator piece → split separator piece ≡ piece ∷ []
unfolding split
split-nil separator [] w = refl
split-nil separator (c ∷ cs) w = simp (split-nil separator cs w.1, w.0)

split-cons :
    (separator : ℕ) (text : List ℕ)
    → (piece : List ℕ) × (pieces : List (List ℕ)) × (split separator text ≡ piece ∷ pieces)
unfolding split
split-cons separator [] = ([], [], refl)
split-cons separator (c ∷ cs) =
    let (piece, pieces, e) = split-cons separator cs in
    elim (Bool-cases (c == separator)) [
      | inl cut ↦ ([], piece ∷ pieces, rw (e, split) (rw cut refl))
      | inr kept ↦ (c ∷ piece, pieces, rw (e, split) (rw kept refl))
    ]

same : (n : ℕ) → (n == n) ≡ true
same n = ground arith

pub split-append :
    (separator : ℕ) (piece rest : List ℕ)
    → Without separator piece
    → split separator (piece ++ separator ∷ rest) ≡ piece ∷ split separator rest
unfolding split
split-append separator [] rest w =
    let (piece, pieces, e) = split-cons separator rest in rw (e, split) (rw (same separator) refl)
split-append separator (c ∷ cs) rest w =
    rw (split-append separator cs rest w.1, split) (rw w.0 refl)

abbrev pub IsByte : ℕ → Type 0
IsByte n = n < 256

pub split-dotted :
    (a b c d : ℕ)
    → IsByte a
    → IsByte b
    → IsByte c
    → IsByte d
    → split 46 (dotted a b c d) ≡ decimal a ∷ decimal b ∷ decimal c ∷ decimal d ∷ []
unfolding dotted
split-dotted a b c d ha hb hc hd =
    split-append 46 (decimal a) (decimal b ++ (46 ∷ (decimal c ++ (46 ∷ decimal d))))
      (decimal-Without a ha)
    ∙ ap (λ l. decimal a ∷ l)
        (split-append 46 (decimal b) (decimal c ++ (46 ∷ decimal d)) (decimal-Without b hb)
          ∙ ap (λ l. decimal b ∷ l)
              (split-append 46 (decimal c) (decimal d) (decimal-Without c hc)
                ∙ ap (λ l. decimal c ∷ l) (split-nil 46 (decimal d) (decimal-Without d hd))))
