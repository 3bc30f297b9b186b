-- ===== src/Search/Rules/Distance.antt =====
-- apps/api/src/search/rules.ts: `editDistance`, the Levenshtein distance by rows.
pub mod Scripts
pub mod Rows
use supamail.Common.{
  ℕ, zero, suc, ◌+◌, ◌≤◌, min, ◌≡◌, refl, append-nil, append_assoc, sym, ap, subst, ◌∙◌, ◌⊎◌, inl,
  inr, Bool, true, false, List, [], ◌∷◌, ◌++◌, length, ◌==◌, ==_iff, if◌then◌else◌, arith,
  Bool-cases,
}

abbrev pub cost : ℕ → ℕ → ℕ
cost x y = if x == y then 0 else 1

-- `Math.min(above + 1, left + 1, diagonal + cost)`
abbrev pub cheapest : ℕ → ℕ → ℕ → ℕ
cheapest above left diagonal = min (min (above + 1) (left + 1)) diagonal

-- The inner loop, from the entries `left` of this row and `diagonal` of the row above. A row above
-- that is too short would make the code read `undefined`; it never is.
unfoldable pub fill_row : ℕ → ℕ → ℕ → List ℕ → List ℕ → List ℕ
fill_row x left diagonal (y ∷ right) (above ∷ previous) =
    let value = cheapest above left (diagonal + cost x y) in
    value ∷ fill_row x value above right previous
fill_row x left diagonal _ _ = []

-- The next row, whose first entry is `i`.
unfoldable pub next_row : ℕ → ℕ → List ℕ → List ℕ → List ℕ
next_row x i right [] = []
next_row x i right (diagonal ∷ previous) = i ∷ fill_row x i diagonal right previous

-- The outer loop.
unfoldable pub rows : ℕ → List ℕ → List ℕ → List ℕ → List ℕ
rows i [] right previous = previous
rows i (x ∷ left) right previous = rows (suc i) left right (next_row x i right previous)

-- `Array.from({ length: right.length + 1 }, (_, index) => index)`
unfoldable pub counting : ℕ → List ℕ → List ℕ
counting i [] = i ∷ []
counting i (y ∷ right) = i ∷ counting (suc i) right

unfoldable pub last_or : ℕ → List ℕ → ℕ
last_or default [] = default
last_or default (x ∷ xs) = last_or x xs

unfoldable pub edit_distance : List ℕ → List ℕ → ℕ
unfolding fill_row next_row rows counting last_or
edit_distance left right = last_or 0 (rows 1 left right (counting 0 right))

-- An edit script of a given length from one text to another.
pub data Edits : List ℕ → List ℕ → ℕ → Type 0 where
  done : Edits [] [] 0
  keep : (x : ℕ) {xs ys : List ℕ} {n : ℕ} → Edits xs ys n → Edits (x ∷ xs) (x ∷ ys) n
  replace : (x y : ℕ) {xs ys : List ℕ} {n : ℕ} → Edits xs ys n → Edits (x ∷ xs) (y ∷ ys) (suc n)
  delete : (x : ℕ) {xs ys : List ℕ} {n : ℕ} → Edits xs ys n → Edits (x ∷ xs) ys (suc n)
  insert : (y : ℕ) {xs ys : List ℕ} {n : ℕ} → Edits xs ys n → Edits xs (y ∷ ys) (suc n)
