-- ===== src/TargetScheduler/Tests.antt =====
-- A run of the scheduler, and its theorems at a state that it reaches.
use supamail.Common.{
  ℕ, ◌+◌, ◌≡◌, refl, ◌≤◌, ◌<◌, ◌↔◌, ◌⊎◌, true, false, Option, none, some, List, [], ◌∷◌, length,
  sum_of, Outcome, ok, throw,
}
use native.Mathlib.Decide.{ℕ_discrete}
use supamail.Common.Text.{codes, is_space, same_codes}
use supamail.MigrationId.{
  is_digit, no_space, is_name, number_of, public_migration_sequence, assert_required_schema_version,
  sequence_ready, version_ready, is_schema_version_ready,
}
use supamail.TargetScheduler.{
  RuntimeTargetTask, RuntimeTargetStatus, SchedulerError, paused, fulfilled, Options, State,
  default_global_concurrency, default_per_target_concurrency, take_ready, maybe_resolve,
  skip_pending_for_abort, start_task, pump_rounds, pump, release_target, finish_task, report_task,
  sort_out, initial_state, run_runtime_target_tasks,
}
use supamail.TargetScheduler.Tasks.{task_of}
use supamail.TargetScheduler.Invariant.{targets}
use supamail.TargetScheduler.Steps.{Reached, started, fulfils, finishes, pick_first}
use supamail.TargetScheduler.Guarantees.{Reached-bounded, Reached-conserved, Reached-progress}

abbrev task : ℕ → Option RuntimeTargetStatus → RuntimeTargetTask ℕ
task target status = record {
  target_id = target;
  task_id = [];
  status = status;
  current_schema_version = codes "0030_new";
}

-- Two tasks of one target, one of another, and one of a paused target.
abbrev four : List (RuntimeTargetTask ℕ)
four = task 1 none ∷ task 1 none ∷ task 2 none ∷ task 3 (some paused) ∷ []

abbrev options : Options
options = record {
  required_schema_version = codes "0029_old";
  global_concurrency = default_global_concurrency;
  per_target_concurrency = default_per_target_concurrency;
}

ready : Unit {0}
unfolding is_space same_codes is_digit no_space is_name number_of public_migration_sequence
    assert_required_schema_version sequence_ready version_ready is_schema_version_ready take_ready
    maybe_resolve skip_pending_for_abort start_task pump_rounds pump release_target finish_task
    report_task sort_out initial_state run_runtime_target_tasks ℕ_discrete
ready = tt

abbrev state_of : Outcome SchedulerError (State ℕ ℕ) → State ℕ ℕ
state_of (ok s) = s
state_of (throw e) = initial_state false ([], [])

first_state : State ℕ ℕ
first_state = state_of (run_runtime_target_tasks ℕ_discrete options false four)

first_state-eq : run_runtime_target_tasks ℕ_discrete options false four ≡ ok first_state
unfolding ready first_state
first_state-eq = refl

-- The two targets have one task each in flight; the second task of the first target waits.
two_run :
    (first_state.in_flight ≡ task 2 none ∷ task 1 none ∷ [])
    × (first_state.pending ≡ task 1 none ∷ [])
unfolding ready first_state
two_run = (refl, refl)

abbrev later_state : State ℕ ℕ
later_state =
    finish_task ℕ_discrete options (task 2 none) []
      (report_task ℕ_discrete (task 2 none) (fulfilled 9) (task 1 none ∷ []) first_state)

later_state-Reached : Reached ℕ_discrete options four later_state
unfolding ready first_state
later_state-Reached = finishes (fulfils 9 (started false first_state-eq) pick_first) pick_first

still_waits : later_state.pending ≡ task 1 none ∷ []
unfolding ready first_state
still_waits = refl

Reached-bounded_example :
    (length later_state.in_flight + length later_state.reported ≤ 2)
    × ((k : ℕ)
        → sum_of (targets ℕ_discrete k) later_state.in_flight
            + sum_of (targets ℕ_discrete k) later_state.reported
          ≤ 1)
Reached-bounded_example = Reached-bounded ℕ_discrete options four later_state-Reached

Reached-conserved_example :
    ((f : RuntimeTargetTask ℕ → ℕ)
      → sum_of (λ r. f (task_of r)) later_state.results
          + sum_of f later_state.pending
          + sum_of f later_state.in_flight
        ≡ sum_of f four)
    × (later_state.settled ≡ true
        → (length later_state.pending ≡ 0)
          × (length later_state.in_flight + length later_state.reported ≡ 0)
          × ((f : RuntimeTargetTask ℕ → ℕ)
              → sum_of (λ r. f (task_of r)) later_state.results ≡ sum_of f four))
Reached-conserved_example = Reached-conserved ℕ_discrete options four later_state-Reached

Reached-progress_example :
    ((later_state.settled ≡ true)
      ⊎ (0 < length later_state.in_flight + length later_state.reported))
    × ((later_state.settled ≡ true) ↔ (later_state.completed ≡ later_state.total_runnable))
Reached-progress_example = Reached-progress ℕ_discrete options four later_state-Reached
