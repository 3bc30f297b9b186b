-- ===== src/TargetScheduler.antt =====
-- apps/api/src/target-scheduler.ts: the state of `runRuntimeTargetTasks` and what each of its events
-- does. Target ids are keys with decidable equality; a schema version is the list of its code points.
pub mod Steps
pub mod Tasks
pub mod Invariant
pub mod Events
pub mod Guarantees
mod Tests
use supamail.Common.{
  ℕ, zero, suc, ◌+◌, ◌-◌, Bool, true, false, ◌&&◌, not, Option, none, some, List, [], ◌∷◌, ◌++◌,
  map, length, ltb, leb, ◌==◌, Outcome, ok, throw, ◌>>=◌, ◌>>◌, throw_if, if◌then◌else◌,
}
use supamail.Common.Keys.{update}
use supamail.MigrationId.{
  assert_required_schema_version, is_schema_version_ready, InvalidSchemaVersionError,
}

pub data RuntimeTargetStatus : Type 0 where
  active paused needs_attention : RuntimeTargetStatus

pub data RuntimeTargetSkipReason : Type 0 where
  target_paused target_needs_attention stale_migration scheduler_aborted : RuntimeTargetSkipReason

-- `status` is optional in a task.
pub record RuntimeTargetTask (K : Type 0) : Type 0 where
  pub target_id : K
  pub task_id : List ℕ
  pub status : Option RuntimeTargetStatus
  pub current_schema_version : List ℕ

-- How a task ends; the result of the scheduler names the task beside it.
pub data Ending (V : Type 0) : Type 0 where
  fulfilled rejected : V → Ending V
  skipped : RuntimeTargetSkipReason → Ending V

pub record Options : Type 0 where
  pub required_schema_version : List ℕ
  pub global_concurrency : ℕ
  pub per_target_concurrency : ℕ

abbrev pub default_global_concurrency : ℕ
default_global_concurrency = 2

abbrev pub default_per_target_concurrency : ℕ
default_per_target_concurrency = 1

-- The variables of the promise's executor. `in_flight` holds the tasks whose `run` is not settled,
-- `reported` those whose result is pushed and whose `finally` has not run: the promise chains.
pub record State (K : Type 0) (V : Type 0) : Type 0 where
  pub results : List (RuntimeTargetTask K × Ending V)
  pub pending : List (RuntimeTargetTask K)
  pub running_by_target : K → Option ℕ
  pub running : ℕ
  pub completed : ℕ
  pub total_runnable : ℕ
  pub settled : Bool
  pub aborted : Bool
  pub in_flight : List (RuntimeTargetTask K)
  pub reported : List (RuntimeTargetTask K)

-- `?? 0`
abbrev pub count_of : Option ℕ → ℕ
count_of none = 0
count_of (some n) = n

-- `(count ?? 1) - 1`
abbrev pub one_less : Option ℕ → ℕ
one_less none = 0
one_less (some n) = n - 1

abbrev pub get_skip_reason :
    {K : Type 0}
    → RuntimeTargetTask K
    → List ℕ
    → Outcome InvalidSchemaVersionError (Option RuntimeTargetSkipReason)
get_skip_reason task required = elim task.status [
  | some paused ↦ ok (some target_paused)
  | some needs_attention ↦ ok (some target_needs_attention)
  | _ ↦ elim (is_schema_version_ready task.current_schema_version required) [
    | throw e ↦ throw e
    | ok is_ready ↦ ok (if is_ready then none else some stale_migration)
  ]
]

-- The checks of the options, and the error of the required version.
pub data SchedulerError : Type 0 where
  invalid_global_concurrency invalid_per_target_concurrency : SchedulerError
  invalid_required_version : InvalidSchemaVersionError → SchedulerError

abbrev pub version_checked {ℓ} :
    {A : Type ℓ} → Outcome InvalidSchemaVersionError A → Outcome SchedulerError A
version_checked (ok a) = ok a
version_checked (throw e) = throw (invalid_required_version e)

module _ {K : Type 0} where
  -- `findIndex` and `splice`: the first task whose target has room, and the others.
  unfoldable pub take_ready :
      ℕ
      → (K → Option ℕ)
      → List (RuntimeTargetTask K)
      → Option (RuntimeTargetTask K × List (RuntimeTargetTask K))
  take_ready limit running [] = none
  take_ready limit running (task ∷ tasks) =
      let later = take_ready limit running tasks in
      if ltb (count_of (running task.target_id)) limit
      then some (task, tasks)
      else elim later [ none ↦ none | some (next, rest) ↦ some (next, task ∷ rest) ]

  -- The entry of a target is deleted at zero.
  unfoldable pub release_target : Discrete K → K → (K → Option ℕ) → K → Option ℕ
  release_target dec k running =
      update dec running k
        (if leb (one_less (running k)) 0 then none else some (one_less (running k)))

module _ {K : Type 0} {V : Type 0} where
  unfoldable pub maybe_resolve : State K V → State K V
  maybe_resolve s = if s.completed == s.total_runnable then record s { settled = true } else s

  abbrev pub skip_for_abort : RuntimeTargetTask K → RuntimeTargetTask K × Ending V
  skip_for_abort task = (task, skipped scheduler_aborted)

  -- The loop takes every pending task, the first one first.
  unfoldable pub skip_pending_for_abort : State K V → State K V
  skip_pending_for_abort s = maybe_resolve (record s {
    pending = [];
    completed = s.completed + length s.pending;
    results = s.results ++ map skip_for_abort s.pending;
  })

  module _ (dec : Discrete K) where
    unfoldable pub start_task :
        RuntimeTargetTask K → List (RuntimeTargetTask K) → State K V → State K V
    start_task task rest s = record s {
      pending = rest;
      running = s.running + 1;
      running_by_target =
          update dec s.running_by_target task.target_id
            (some (count_of (s.running_by_target task.target_id) + 1));
      in_flight = task ∷ s.in_flight;
    }

    -- The rounds of `pump`; each takes a task from `pending`, so one more than there are is enough.
    unfoldable pub pump_rounds : ℕ → Options → State K V → State K V
    pump_rounds zero o s = maybe_resolve s
    pump_rounds (suc fuel) o s =
        if ltb s.running o.global_concurrency
        then if s.aborted
          then skip_pending_for_abort s
          else elim (take_ready o.per_target_concurrency s.running_by_target s.pending) [
            | none ↦ maybe_resolve s
            | some (task, rest) ↦ pump_rounds fuel o (start_task task rest s)
          ]
        else maybe_resolve s

    unfoldable pub pump : Options → State K V → State K V
    pump o s =
        if s.aborted then skip_pending_for_abort s else pump_rounds (suc (length s.pending)) o s

    -- The `finally` of a task that is reported; `others` are the tasks reported besides.
    unfoldable pub finish_task :
        Options → RuntimeTargetTask K → List (RuntimeTargetTask K) → State K V → State K V
    finish_task o task others s =
        let t = record s {
          running = s.running - 1;
          completed = s.completed + 1;
          running_by_target = release_target dec task.target_id s.running_by_target;
          reported = others;
        } in
        if t.aborted then skip_pending_for_abort t else pump o t

    -- `results.push`, when the `run` of a task settles; `others` are the tasks in flight besides.
    unfoldable pub report_task :
        RuntimeTargetTask K → Ending V → List (RuntimeTargetTask K) → State K V → State K V
    report_task task ending others s = record s {
      results = s.results ++ (task, ending) ∷ [];
      in_flight = others;
      reported = task ∷ s.reported;
    }

    -- The signal aborts, with the listener that `resolveOnce` removes.
    unfoldable pub abort : State K V → State K V
    abort s =
        let t = record s { aborted = true } in if s.settled then t else skip_pending_for_abort t

module _ {K : Type 0} {V : Type 0} where
  -- One round of the loop over the tasks before the promise.
  abbrev pub sort_task :
      Option RuntimeTargetSkipReason
      → RuntimeTargetTask K
      → List (RuntimeTargetTask K × Ending V) × List (RuntimeTargetTask K)
      → List (RuntimeTargetTask K × Ending V) × List (RuntimeTargetTask K)
  sort_task none task (results, pending) = (results, task ∷ pending)
  sort_task (some reason) task (results, pending) = ((task, skipped reason) ∷ results, pending)

  -- The results of the tasks that are skipped, and the tasks that are not.
  unfoldable pub sort_out :
      List ℕ
      → List (RuntimeTargetTask K)
      → Outcome InvalidSchemaVersionError
          (List (RuntimeTargetTask K × Ending V) × List (RuntimeTargetTask K))
  sort_out required [] = ok ([], [])
  sort_out required (task ∷ tasks) = do
    reason ← get_skip_reason task required
    sorted ← sort_out required tasks
    ok (sort_task reason task sorted)

  -- The state before the first `pump`; without a runnable task the results are returned at once.
  unfoldable pub initial_state :
      Bool → List (RuntimeTargetTask K × Ending V) × List (RuntimeTargetTask K) → State K V
  initial_state aborted (results, pending) = record {
    results = results;
    pending = pending;
    running_by_target = λ _. none;
    running = 0;
    completed = 0;
    total_runnable = length pending;
    settled = length pending == 0;
    aborted = aborted;
    in_flight = [];
    reported = [];
  }

  -- `runRuntimeTargetTasks`, up to its first wait.
  unfoldable pub run_runtime_target_tasks :
      Discrete K → Options → Bool → List (RuntimeTargetTask K) → Outcome SchedulerError (State K V)
  run_runtime_target_tasks dec o aborted tasks = do
    throw_if (ltb o.global_concurrency 1) invalid_global_concurrency
    throw_if (ltb o.per_target_concurrency 1) invalid_per_target_concurrency
    version_checked (assert_required_schema_version o.required_schema_version)
    sorted ← version_checked (sort_out o.required_schema_version tasks)
    ok (
        if length sorted.1 == 0
        then initial_state aborted sorted
        else pump dec o (initial_state aborted sorted))
