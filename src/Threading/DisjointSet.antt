-- ===== src/Threading/DisjointSet.antt =====
-- apps/api/src/threading.ts: `DisjointSet`. The map is a function with the list of its keys. The
-- `while` loops take one round more than there are keys as fuel; `none` means that it ran out.
pub mod Roots
pub mod Unions
pub mod Classes
use supamail.Common.{
  ℕ, zero, suc, Bool, true, false, Option, none, some, List, [], ◌∷◌, ◌++◌, length,
}
use supamail.Common.Keys.{update}
use supamail.Common.Order.{StrictOrder, Sign, negative, null, positive, binary_compare}
use mathlib.Core.Logic.{ite}

pub record Sets (K : Type 0) : Type 0 where
  pub keys : List K
  pub parents : K → Option K

abbrev pub empty_sets : {K : Type 0} → Sets K
empty_sets = record { keys = []; parents = λ _. none }

-- `this.parents.get(k) as string`: the code reads only keys that it has added.
abbrev pub get_parent : {K : Type 0} → Sets K → K → K
get_parent s k = elim (s.parents k) [ none ↦ k | some p ↦ p ]

infixl 5 ◌>>=◌
abbrev ◌>>=◌ : {A B : Type 0} → Option A → (A → Option B) → Option B
none >>= f = none
some a >>= f = f a

module _ {K : Type 0} (dec : Discrete K) where
  unfoldable pub set_parent : K → K → Sets K → Sets K
  set_parent k p s = record s { parents = update dec s.parents k (some p) }

  unfoldable pub add : K → Sets K → Sets K
  add value s = elim (s.parents value) [
    | some _ ↦ s
    | none ↦ record {
      keys = s.keys ++ value ∷ [];
      parents = update dec s.parents value (some value);
    }
  ]

  unfoldable pub find_root : ℕ → Sets K → K → Option K
  find_root zero s root = none
  find_root (suc fuel) s root =
      let next = find_root fuel s (get_parent s root) in
      ite (dec root (get_parent s root)) (some root) next

  -- Path compression: the cursor's parent is read before it is overwritten.
  unfoldable pub compress : ℕ → Sets K → K → K → Option (Sets K)
  compress zero s root cursor = none
  compress (suc fuel) s root cursor =
      let rest = compress fuel (set_parent cursor root s) root (get_parent s cursor) in
      ite (dec cursor root) (some s) rest

  unfoldable pub find : K → Sets K → Option (K × Sets K)
  find value s = do
    let t = add value s
    root ← find_root (suc (length t.keys)) t (get_parent t value)
    u ← compress (suc (length t.keys)) t root value
    some (root, u)

  unfoldable pub link_roots : StrictOrder K → K → K → Sets K → Sets K
  link_roots o left_root right_root s =
      ite (dec left_root right_root) s (elim (binary_compare o left_root right_root) [
        | positive ↦ set_parent left_root right_root s
        | _ ↦ set_parent right_root left_root s
      ])

  unfoldable pub union : StrictOrder K → K → K → Sets K → Option (Sets K)
  union o left right s = do
    (left_root, t) ← find left s
    (right_root, u) ← find right t
    some (link_roots o left_root right_root u)

  -- The sequence of `union` calls that a client makes.
  unfoldable pub union_all : StrictOrder K → List (K × K) → Sets K → Option (Sets K)
  union_all o [] s = some s
  union_all o ((left, right) ∷ ops) s = union o left right s >>= union_all o ops
