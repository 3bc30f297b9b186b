-- ===== src/TargetScheduler/Steps.antt =====
-- The scheduler as a transition system: tasks settle and their `finally` runs in any order, and the
-- signal may abort at any time.
use supamail.Common.{◌≡◌, Bool, false, List, ◌∷◌, ok}
use supamail.TargetScheduler.{
  RuntimeTargetTask, fulfilled, rejected, Options, State, run_runtime_target_tasks, report_task,
  finish_task, abort,
}

-- `Picks x xs ys`: `ys` is `xs` without one `x`.
pub data Picks {A : Type 0} (x : A) : List A → List A → Type 0 where
  pick_first : {xs : List A} → Picks x (x ∷ xs) xs
  pick_later : {y : A} {xs ys : List A} → Picks x xs ys → Picks x (y ∷ xs) (y ∷ ys)

-- The states that a call reaches.
pub data Reached {K V : Type 0} (dec : Discrete K) (o : Options)
    (tasks : List (RuntimeTargetTask K)) : State K V → Type 0 where
  started :
      (aborted : Bool) {s : State K V}
      → run_runtime_target_tasks dec o aborted tasks ≡ ok s
      → Reached dec o tasks s
  fulfils :
      {s : State K V} {task : RuntimeTargetTask K} {others : List (RuntimeTargetTask K)} (value : V)
      → Reached dec o tasks s
      → Picks task s.in_flight others
      → Reached dec o tasks (report_task dec task (fulfilled value) others s)
  rejects :
      {s : State K V} {task : RuntimeTargetTask K} {others : List (RuntimeTargetTask K)} (error : V)
      → Reached dec o tasks s
      → Picks task s.in_flight others
      → Reached dec o tasks (report_task dec task (rejected error) others s)
  finishes :
      {s : State K V} {task : RuntimeTargetTask K} {others : List (RuntimeTargetTask K)}
      → Reached dec o tasks s
      → Picks task s.reported others
      → Reached dec o tasks (finish_task dec o task others s)
  aborts :
      {s : State K V}
      → Reached dec o tasks s
      → s.aborted ≡ false
      → Reached dec o tasks (abort dec s)
