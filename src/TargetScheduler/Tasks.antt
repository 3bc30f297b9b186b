-- ===== src/TargetScheduler/Tasks.antt =====
-- Lists of tasks by weight: two lists that weigh the same under every measure hold the same tasks,
-- each as often.
use supamail.Common.{
  ℕ, ◌+◌, ◌≤◌, ◌<◌, ◌≡◌, refl, subst, ◌⊎◌, inl, inr, Bool, true, false, Option, none, some, List,
  [], ◌∷◌, ◌++◌, map, length, sum_of, ltb, ltb→lt, arith, if◌then◌else◌,
}
use supamail.TargetScheduler.{RuntimeTargetTask, Ending, count_of, take_ready, skip_for_abort}
use supamail.TargetScheduler.Steps.{Picks, pick_first, pick_later}

-- The task of a result.
abbrev pub task_of : {K V : Type 0} → RuntimeTargetTask K × Ending V → RuntimeTargetTask K
task_of result = result.0

module _ {A : Type 0} where
  pub length-sum_of : (xs : List A) → length xs ≡ sum_of (λ _. 1) xs
  length-sum_of [] = omega arith
  length-sum_of (x ∷ xs) = omega (arith, length-sum_of xs)

  pub Picks-sum_of :
      {x : A} {xs ys : List A} (f : A → ℕ) → Picks x xs ys → sum_of f xs ≡ f x + sum_of f ys
  Picks-sum_of f pick_first = refl
  Picks-sum_of f (pick_later p) = omega (arith, Picks-sum_of f p)

  pub Picks-length : {x : A} {xs ys : List A} → Picks x xs ys → length xs ≡ 1 + length ys
  Picks-length pick_first = omega arith
  Picks-length (pick_later p) = omega (arith, Picks-length p)

module _ {K V : Type 0} (f : RuntimeTargetTask K → ℕ) where
  pub sum_of-skipped :
      (rs : List (RuntimeTargetTask K × Ending V)) (ts : List (RuntimeTargetTask K))
      → sum_of (λ r. f (task_of r)) (rs ++ map skip_for_abort ts)
        ≡ sum_of (λ r. f (task_of r)) rs + sum_of f ts
  sum_of-skipped [] [] = omega arith
  sum_of-skipped [] (t ∷ ts) = omega (arith, sum_of-skipped [] ts)
  sum_of-skipped (r ∷ rs) ts = omega (arith, sum_of-skipped rs ts)

module _ {K : Type 0} (limit : ℕ) (run : K → Option ℕ) where
  abbrev Taken :
      List (RuntimeTargetTask K) → RuntimeTargetTask K × List (RuntimeTargetTask K) → Type 0
  Taken ts p = (count_of (run p.0.target_id) < limit) × Picks p.0 ts p.1

  first_or_later :
      (x : RuntimeTargetTask K) (xs : List (RuntimeTargetTask K))
      (p : RuntimeTargetTask K × List (RuntimeTargetTask K)) (b : Bool)
      → ltb (count_of (run x.target_id)) limit ≡ b
      → (later : Option (RuntimeTargetTask K × List (RuntimeTargetTask K)))
      → ((q : RuntimeTargetTask K × List (RuntimeTargetTask K)) → later ≡ some q → Taken xs q)
      → (if b
          then some (x, xs)
          else elim later [ none ↦ none | some (next, rest) ↦ some (next, x ∷ rest) ])
        ≡ some p
      → Taken (x ∷ xs) p
  first_or_later x xs p true h later k e =
      let same : (x, xs) ≡ p = cc in subst (Taken (x ∷ xs)) same (ltb→lt _ _ h, pick_first)
  first_or_later x xs p false h none k e = cc
  first_or_later x xs p false h (some q) k e =
      let same : (q.0, x ∷ q.1) ≡ p = cc in
      let (free, picks) = k q refl in subst (Taken (x ∷ xs)) same (free, pick_later picks)

  -- `take_ready` takes a pending task whose target has room.
  pub take_ready-some :
      (ts : List (RuntimeTargetTask K)) (p : RuntimeTargetTask K × List (RuntimeTargetTask K))
      → take_ready limit run ts ≡ some p
      → (count_of (run p.0.target_id) < limit) × Picks p.0 ts p.1
  unfolding take_ready
  take_ready-some [] p e = cc
  take_ready-some (x ∷ xs) p e =
      first_or_later x xs p (ltb (count_of (run x.target_id)) limit) refl (take_ready limit run xs)
        (take_ready-some xs) e

  -- It takes none only if no task is pending or some target has no room.
  pub take_ready-none :
      (ts : List (RuntimeTargetTask K))
      → take_ready limit run ts ≡ none
      → (ts ≡ []) ⊎ ((k : K) × (limit ≤ count_of (run k)))
  unfolding take_ready
  take_ready-none [] e = inl refl
  take_ready-none (x ∷ xs) e = inr (x.target_id, ground arith)
