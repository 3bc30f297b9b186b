-- ===== src/Common/Keys.antt =====
-- Maps and sets over keys with decidable equality: a map is a function, a set its keys in order.
use Prim.Native.Nat.{ℕ, ◌+◌, ◌≤◌, ◌<◌}
use mathlib.Core.Path.{◌≡◌, refl}
use mathlib.Core.Logic.{◌≢◌, ◌↔◌, ◌⊎◌, inl, inr, ite, if_pos, if_neg}
use mathlib.Core.Bool.{Bool, true, false}
use mathlib.Core.List.{List, [], ◌∷◌, ◌++◌}
use supamail.Common.Tests.{if◌then◌else◌}
use supamail.Common.Lists.{length}
use native.Mathlib.Omega.{arith}

-- Membership as a sum, which the tactics take apart.
abbrev pub In : {K : Type 0} → K → List K → Type 0
In k [] = ⊥
In k (x ∷ xs) = (k ≡ x) ⊎ In k xs

pub In-append : {K : Type 0} (j : K) (xs ys : List K) → In j (xs ++ ys) ↔ (In j xs ⊎ In j ys)
In-append j [] ys = (λ h. inr h, λ h. elim h [ inl a ↦ absurd a | inr b ↦ b ])
In-append j (x ∷ xs) ys = ground (arith, In-append j xs ys)

module _ {K : Type 0} (dec : Discrete K) where
  abbrev pub update {ℓ} : {V : Type ℓ} → (K → V) → K → V → K → V
  update f k v j = ite (dec j k) v (f j)

  pub update_self {ℓ} : {V : Type ℓ} (f : K → V) (k : K) (v : V) → update f k v k ≡ v
  update_self f k v = if_pos (dec k k) refl v (f k)

  pub update_ne {ℓ} :
      {V : Type ℓ} (f : K → V) (k : K) (v : V) (j : K) → j ≢ k → update f k v j ≡ f j
  update_ne f k v j h = if_neg (dec j k) h v (f j)

  unfoldable pub contains : List K → K → Bool
  contains [] k = false
  contains (x ∷ xs) k = ite (dec k x) true (contains xs k)

  -- `Set.add`: a set keeps the order of insertion.
  unfoldable pub set_add : K → List K → List K
  set_add k xs = if contains xs k then xs else xs ++ k ∷ []

  -- `Set.delete`
  unfoldable pub set_delete : K → List K → List K
  set_delete k [] = []
  set_delete k (x ∷ xs) = ite (dec k x) (set_delete k xs) (x ∷ set_delete k xs)

  pub contains_iff : (xs : List K) (k : K) → (contains xs k ≡ true) ↔ In k xs
  unfolding contains
  contains_iff [] k = (λ e. cc, λ h. absurd h)
  contains_iff (x ∷ xs) k = ground (arith, contains_iff xs k)

  pub In-set_add : (k j : K) (xs : List K) → In j (set_add k xs) ↔ ((j ≡ k) ⊎ In j xs)
  unfolding set_add
  In-set_add k j xs = ground (arith, contains_iff xs k, In-append j xs (k ∷ []))

  pub In-set_delete : (k j : K) (xs : List K) → In j (set_delete k xs) ↔ ((j ≢ k) × In j xs)
  unfolding set_delete
  In-set_delete k j [] = (λ h. absurd h, λ h. h.1)
  In-set_delete k j (x ∷ xs) = ground (arith, In-set_delete k j xs)

  -- The keys of a list that a visited list does not hold.
  pub unvisited : List K → List K → ℕ
  unvisited visited [] = 0
  unvisited visited (x ∷ xs) = (if contains visited x then 0 else 1) + unvisited visited xs

  pub unvisited-le :
      (v : K) (visited xs : List K) → unvisited (v ∷ visited) xs ≤ unvisited visited xs
  unfolding unvisited contains
  unvisited-le v visited [] = omega arith
  unvisited-le v visited (x ∷ xs) = ground (arith, unvisited-le v visited xs)

  -- Visiting one more key of the list leaves fewer.
  pub unvisited-lt :
      (v : K) (visited xs : List K)
      → In v xs
      → contains visited v ≡ false
      → unvisited (v ∷ visited) xs < unvisited visited xs
  unfolding unvisited contains
  unvisited-lt v visited [] h e = absurd h
  unvisited-lt v visited (x ∷ xs) (inl same) e = ground (arith, unvisited-le v visited xs)
  unvisited-lt v visited (x ∷ xs) (inr later) e = ground (arith, unvisited-lt v visited xs later e)

  pub unvisited-nil : (xs : List K) → unvisited [] xs ≤ length xs
  unfolding unvisited contains
  unvisited-nil [] = omega arith
  unvisited-nil (x ∷ xs) = omega (arith, unvisited-nil xs)
