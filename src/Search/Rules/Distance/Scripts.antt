-- ===== src/Search/Rules/Distance/Scripts.antt =====
-- The least edit scripts between two texts.
use supamail.Common.{
  ℕ, suc, ◌+◌, ◌≤◌, ◌≡◌, refl, sym, subst, ◌⊎◌, inl, inr, List, [], ◌∷◌, ◌++◌, length, ◌==◌, ==_iff,
  arith, Bool-cases,
}
use supamail.Search.Rules.Distance.{cheapest, cost, Edits}
use supamail.Search.Rules.Distance.Edits.{done, keep, replace, delete, insert}
use mathlib.Core.List.{reverse, reverse-cons}

-- The distance of two prefixes, held with their last units first.
unfoldable pub distance : List ℕ → List ℕ → ℕ
distance [] ys = length ys
distance (x ∷ xs) [] = suc (length xs)
distance (x ∷ xs) (y ∷ ys) =
    cheapest (distance xs (y ∷ ys)) (distance (x ∷ xs) ys) (distance xs ys + cost x y)

pub distance-nil : (xs : List ℕ) → distance xs [] ≡ length xs
unfolding distance
distance-nil [] = refl
distance-nil (x ∷ xs) = refl

distance-delete : (x : ℕ) (xs ys : List ℕ) → distance (x ∷ xs) ys ≤ suc (distance xs ys)
unfolding distance
distance-delete x xs [] = omega (arith, distance-nil xs)
distance-delete x xs (y ∷ ys) = omega arith

distance-insert : (y : ℕ) (xs ys : List ℕ) → distance xs (y ∷ ys) ≤ suc (distance xs ys)
unfolding distance
distance-insert y [] ys = omega arith
distance-insert y (x ∷ xs) ys = omega arith

distance-replace :
    (x y : ℕ) (xs ys : List ℕ) → distance (x ∷ xs) (y ∷ ys) ≤ distance xs ys + cost x y
unfolding distance
distance-replace x y xs ys = omega arith

-- No script is shorter.
pub distance-least : {xs ys : List ℕ} {n : ℕ} → Edits xs ys n → distance xs ys ≤ n
unfolding distance
distance-least done = omega arith
distance-least (keep x {xs} {ys} e) = ground (arith, distance-replace x x xs ys, distance-least e)
distance-least (replace x y {xs} {ys} e) =
    ground (arith, distance-replace x y xs ys, distance-least e)
distance-least (delete x {xs} {ys} e) = omega (arith, distance-delete x xs ys, distance-least e)
distance-least (insert y {xs} {ys} e) = omega (arith, distance-insert y xs ys, distance-least e)

inserts : (ys : List ℕ) → Edits [] ys (length ys)
inserts [] = done
inserts (y ∷ ys) = insert y (inserts ys)

deletes : (xs : List ℕ) → Edits xs [] (length xs)
deletes [] = done
deletes (x ∷ xs) = delete x (deletes xs)

cheapest-cases :
    (a b c : ℕ) → (cheapest a b c ≡ suc a) ⊎ (cheapest a b c ≡ suc b) ⊎ (cheapest a b c ≡ c)
cheapest-cases a b c = ground arith

plus_zero : (n : ℕ) → n ≡ n + 0
plus_zero n = omega arith

plus_one : (n : ℕ) → suc n ≡ n + 1
plus_one n = omega arith

edited : (x y : ℕ) (xs ys : List ℕ) (n : ℕ) → Edits xs ys n → Edits (x ∷ xs) (y ∷ ys) (n + cost x y)
edited x y xs ys n e = elim (Bool-cases (x == y)) [
  | inl same ↦ rw same (
      subst (λ z. Edits (x ∷ xs) (z ∷ ys) (n + 0)) ((==_iff x y).0 same)
        (subst (Edits (x ∷ xs) (x ∷ ys)) (plus_zero n) (keep x e)))
  | inr other ↦ rw other (subst (Edits (x ∷ xs) (y ∷ ys)) (plus_one n) (replace x y e))
]

-- A script of that length.
pub distance-Edits : (xs ys : List ℕ) → Edits xs ys (distance xs ys)
unfolding distance
distance-Edits [] ys = inserts ys
distance-Edits (x ∷ xs) [] = deletes (x ∷ xs)
distance-Edits (x ∷ xs) (y ∷ ys) =
    elim (cheapest-cases (distance xs (y ∷ ys)) (distance (x ∷ xs) ys)
      (distance xs ys + cost x y)) [
        | inl above ↦
            subst (Edits (x ∷ xs) (y ∷ ys)) (sym above) (delete x (distance-Edits xs (y ∷ ys)))
        | inr (inl left) ↦
            subst (Edits (x ∷ xs) (y ∷ ys)) (sym left) (insert y (distance-Edits (x ∷ xs) ys))
        | inr (inr diagonal) ↦
            subst (Edits (x ∷ xs) (y ∷ ys)) (sym diagonal)
              (edited x y xs ys _ (distance-Edits xs ys))
      ]

-- A script read from its other end.
keep_last : (x : ℕ) {xs ys : List ℕ} {n : ℕ} → Edits xs ys n → Edits (xs ++ x ∷ []) (ys ++ x ∷ []) n
keep_last x done = keep x done
keep_last x (keep y e) = keep y (keep_last x e)
keep_last x (replace y z e) = replace y z (keep_last x e)
keep_last x (delete y e) = delete y (keep_last x e)
keep_last x (insert y e) = insert y (keep_last x e)

replace_last :
    (x y : ℕ) {xs ys : List ℕ} {n : ℕ} → Edits xs ys n → Edits (xs ++ x ∷ []) (ys ++ y ∷ []) (suc n)
replace_last x y done = replace x y done
replace_last x y (keep z e) = keep z (replace_last x y e)
replace_last x y (replace z w e) = replace z w (replace_last x y e)
replace_last x y (delete z e) = delete z (replace_last x y e)
replace_last x y (insert z e) = insert z (replace_last x y e)

delete_last : (x : ℕ) {xs ys : List ℕ} {n : ℕ} → Edits xs ys n → Edits (xs ++ x ∷ []) ys (suc n)
delete_last x done = delete x done
delete_last x (keep z e) = keep z (delete_last x e)
delete_last x (replace z w e) = replace z w (delete_last x e)
delete_last x (delete z e) = delete z (delete_last x e)
delete_last x (insert z e) = insert z (delete_last x e)

insert_last : (y : ℕ) {xs ys : List ℕ} {n : ℕ} → Edits xs ys n → Edits xs (ys ++ y ∷ []) (suc n)
insert_last y done = insert y done
insert_last y (keep z e) = keep z (insert_last y e)
insert_last y (replace z w e) = replace z w (insert_last y e)
insert_last y (delete z e) = delete z (insert_last y e)
insert_last y (insert z e) = insert z (insert_last y e)

pub Edits-reverse : {xs ys : List ℕ} {n : ℕ} → Edits xs ys n → Edits (reverse xs) (reverse ys) n
Edits-reverse done = done
Edits-reverse (keep x {xs} {ys} e) =
    rw (reverse-cons x xs) (rw (reverse-cons x ys) (keep_last x (Edits-reverse e)))
Edits-reverse (replace x y {xs} {ys} e) =
    rw (reverse-cons x xs) (rw (reverse-cons y ys) (replace_last x y (Edits-reverse e)))
Edits-reverse (delete x {xs} {ys} e) = rw (reverse-cons x xs) (delete_last x (Edits-reverse e))
Edits-reverse (insert y {xs} {ys} e) = rw (reverse-cons y ys) (insert_last y (Edits-reverse e))
