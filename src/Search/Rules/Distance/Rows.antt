-- ===== src/Search/Rules/Distance/Rows.antt =====
-- The rows of `editDistance` hold the distances of prefixes.
use supamail.Common.{
  ℕ, suc, ◌≤◌, ◌≡◌, refl, append-nil, append_assoc, sym, ap, subst, ◌∙◌, List, [], ◌∷◌, ◌++◌,
  length,
}
use supamail.Search.Rules.Distance.{
  fill_row, next_row, rows, counting, last_or, edit_distance, Edits,
}
use mathlib.Core.List.{reverse, reverse-cons, reverse-reverse}
use supamail.Search.Rules.Distance.Scripts.{
  distance, distance-nil, distance-least, distance-Edits, Edits-reverse,
}

-- The entries of the row of `xs` after the first `done` units of the right text.
row_after : List ℕ → List ℕ → List ℕ → List ℕ
row_after xs before [] = []
row_after xs before (y ∷ ys) = distance xs (y ∷ before) ∷ row_after xs (y ∷ before) ys

fill_row-row_after :
    (x : ℕ) (xs before ys : List ℕ)
    → fill_row x (distance (x ∷ xs) before) (distance xs before) ys (row_after xs before ys)
      ≡ row_after (x ∷ xs) before ys
unfolding fill_row row_after distance
fill_row-row_after x xs before [] = refl
fill_row-row_after x xs before (y ∷ ys) =
    ap (λ l. distance (x ∷ xs) (y ∷ before) ∷ l) (fill_row-row_after x xs (y ∷ before) ys)

counting-row_after :
    (before ys : List ℕ) → counting (length before) ys ≡ length before ∷ row_after [] before ys
unfolding counting row_after distance
counting-row_after before [] = refl
counting-row_after before (y ∷ ys) =
    ap (λ l. length before ∷ l) (counting-row_after (y ∷ before) ys)

-- The last entry of a row is the distance to the whole right text.
onto : List ℕ → List ℕ → List ℕ
onto before [] = before
onto before (y ∷ ys) = onto (y ∷ before) ys

last_or-row_after :
    (xs before ys : List ℕ)
    → last_or (distance xs before) (row_after xs before ys) ≡ distance xs (onto before ys)
unfolding last_or row_after onto
last_or-row_after xs before [] = refl
last_or-row_after xs before (y ∷ ys) = last_or-row_after xs (y ∷ before) ys

rows_lem :
    (above left right : List ℕ)
    → rows (suc (length above)) left right (length above ∷ row_after above [] right)
      ≡ length (onto above left) ∷ row_after (onto above left) [] right
unfolding rows next_row onto
rows_lem above [] right = refl
rows_lem above (x ∷ left) right =
    ap (λ row. rows (suc (suc (length above))) left right (suc (length above) ∷ row))
      (filled x above right)
    ∙ rows_lem (x ∷ above) left right
  where
    filled :
        (x : ℕ) (above right : List ℕ)
        → fill_row x (suc (length above)) (length above) right (row_after above [] right)
          ≡ row_after (x ∷ above) [] right
    filled x above right =
        subst
          (λ n.
            fill_row x (suc n) n right (row_after above [] right) ≡ row_after (x ∷ above) [] right)
          (distance-nil above)
          (subst
            (λ n.
              fill_row x n (distance above []) right (row_after above [] right)
              ≡ row_after (x ∷ above) [] right)
            (distance-nil (x ∷ above) ∙ ap suc (sym (distance-nil above)))
            (fill_row-row_after x above [] right))

edit_distance-distance :
    (left right : List ℕ) → edit_distance left right ≡ distance (onto [] left) (onto [] right)
unfolding edit_distance
edit_distance-distance left right =
    ap (λ row. last_or 0 (rows 1 left right row)) (counting-row_after [] right)
    ∙ ap (last_or 0) (rows_lem [] left right)
    ∙ ap (λ n. last_or n (row_after (onto [] left) [] right)) (sym (distance-nil (onto [] left)))
    ∙ last_or-row_after (onto [] left) [] right

onto-reverse : (xs before : List ℕ) → onto before xs ≡ reverse xs ++ before
unfolding onto
onto-reverse [] before = refl
onto-reverse (x ∷ xs) before =
    onto-reverse xs (x ∷ before)
    ∙ sym (append_assoc (reverse xs) (x ∷ []) before)
    ∙ ap (λ l. l ++ before) (sym (reverse-cons x xs))

onto-nil : (xs : List ℕ) → onto [] xs ≡ reverse xs
onto-nil xs = onto-reverse xs [] ∙ append-nil (reverse xs)

-- `editDistance` is the least number of units to insert, delete or replace to turn one text into the
-- other: a script of that length exists, and no script is shorter.
pub edit_distance_lem :
    (left right : List ℕ)
    → Edits left right (edit_distance left right)
      × ((n : ℕ) → Edits left right n → edit_distance left right ≤ n)
edit_distance_lem left right =
    let same : edit_distance left right ≡ distance (reverse left) (reverse right) =
      edit_distance-distance left right
      ∙ ap (λ l. distance l (onto [] right)) (onto-nil left)
      ∙ ap (distance (reverse left)) (onto-nil right) in
    (
      subst (Edits left right) (sym same) (
          subst (λ l. Edits l right (distance (reverse left) (reverse right)))
            (reverse-reverse left)
            (subst (λ l. Edits (reverse (reverse left)) l (distance (reverse left) (reverse right)))
              (reverse-reverse right)
              (Edits-reverse (distance-Edits (reverse left) (reverse right))))),
      λ n e. subst (λ d. d ≤ n) (sym same) (distance-least (Edits-reverse e)),
    )
