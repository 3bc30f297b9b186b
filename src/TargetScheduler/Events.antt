-- ===== src/TargetScheduler/Events.antt =====
-- Every event of `runRuntimeTargetTasks` keeps the invariant.
use supamail.Common.{
  ◌+◌, ◌-◌, ◌≤◌, ◌≡◌, sym, subst, inl, inr, Bool, true, false, List, [], ◌∷◌, sum_of-append,
  Bool-cases, arith, if◌then◌else◌,
}
use supamail.TargetScheduler.{
  RuntimeTargetTask, Ending, Options, State, release_target, skip_pending_for_abort, pump,
  finish_task, report_task, abort,
}
use supamail.TargetScheduler.Tasks.{task_of, Picks-sum_of, Picks-length}
use supamail.TargetScheduler.Steps.{Picks}
use supamail.TargetScheduler.Invariant.{
  targets, release_target-count, Core, Sound, skip_pending_for_abort-Sound, pump-Sound,
}

module _ {K : Type 0} {V : Type 0} (dec : Discrete K) (o : Options)
    (tasks : List (RuntimeTargetTask K)) where
  pub report_task-Sound :
      (t : RuntimeTargetTask K) (ending : Ending V) (others : List (RuntimeTargetTask K))
      (s : State K V)
      → Picks t s.in_flight others
      → Sound dec o tasks s
      → Sound dec o tasks (report_task dec t ending others s)
  unfolding report_task
  report_task-Sound t ending others s p h = record {
    core = record {
      counted = omega (arith, h.core.counted, Picks-length p);
      bounded = h.core.bounded;
      by_target = λ k. omega (arith, h.core.by_target k, Picks-sum_of (targets dec k) p);
      by_bounded = h.core.by_bounded;
      totals = h.core.totals;
      conserved = λ f. omega (
        arith,
        h.core.conserved f,
        Picks-sum_of f p,
        sum_of-append (λ r. f (task_of r)) s.results ((t, ending) ∷ []),
      );
    };
    settled_iff = h.settled_iff;
    busy = h.busy;
  }

  -- While a task is reported the promise is not settled.
  unsettled-of_reported :
      (t : RuntimeTargetTask K) (others : List (RuntimeTargetTask K)) (s : State K V)
      → Picks t s.reported others
      → Sound dec o tasks s
      → s.settled ≡ false
  unsettled-of_reported t others s p h = elim (Bool-cases s.settled) [
    | inl e ↦
        absurd (omega (arith, h.core.counted, h.core.totals, Picks-length p, h.settled_iff.0 e))
    | inr e ↦ e
  ]

  aborted-Core :
      (s : State K V) → Core dec o tasks s → Core dec o tasks (record s { aborted = true })
  aborted-Core s h = record {
    counted = h.counted;
    bounded = h.bounded;
    by_target = h.by_target;
    by_bounded = h.by_bounded;
    totals = h.totals;
    conserved = h.conserved;
  }

  pub abort-Sound : (s : State K V) → Sound dec o tasks s → Sound dec o tasks (abort dec s)
  unfolding abort
  abort-Sound s h = elim (Bool-cases s.settled) [
    | inl e ↦
        subst (λ b. Sound dec o tasks (either b)) (sym e)
          (record { core = aborted-Core s h.core; settled_iff = h.settled_iff; busy = h.busy })
    | inr e ↦
        subst (λ b. Sound dec o tasks (either b)) (sym e)
          (skip_pending_for_abort-Sound dec o tasks (record s { aborted = true })
            (aborted-Core s h.core) e)
  ]
    where
      either : Bool → State K V
      either b =
          if b
          then record s { aborted = true }
          else skip_pending_for_abort (record s { aborted = true })

  released-Core :
      (t : RuntimeTargetTask K) (others : List (RuntimeTargetTask K)) (s : State K V)
      → Picks t s.reported others
      → Core dec o tasks s
      → Core dec o tasks (record s {
        running = s.running - 1;
        completed = s.completed + 1;
        running_by_target = release_target dec t.target_id s.running_by_target;
        reported = others;
      })
  released-Core t others s p h = record {
    counted = omega (arith, h.counted, Picks-length p);
    bounded = omega (arith, h.bounded);
    by_target = λ k. omega (
      arith,
      release_target-count dec t k s.running_by_target,
      h.by_target k,
      Picks-sum_of (targets dec k) p,
    );
    by_bounded =
        λ k. omega (arith, release_target-count dec t k s.running_by_target, h.by_bounded k);
    totals = omega (arith, h.totals, h.counted, Picks-length p);
    conserved = h.conserved;
  }

  next-Sound :
      (b : Bool) (s : State K V)
      → 1 ≤ o.global_concurrency
      → 1 ≤ o.per_target_concurrency
      → Core dec o tasks s
      → s.settled ≡ false
      → Sound dec o tasks (if b then skip_pending_for_abort s else pump dec o s)
  next-Sound true s g one h unsettled = skip_pending_for_abort-Sound dec o tasks s h unsettled
  next-Sound false s g one h unsettled = pump-Sound dec o tasks s g one h unsettled

  pub finish_task-Sound :
      (t : RuntimeTargetTask K) (others : List (RuntimeTargetTask K)) (s : State K V)
      → 1 ≤ o.global_concurrency
      → 1 ≤ o.per_target_concurrency
      → Picks t s.reported others
      → Sound dec o tasks s
      → Sound dec o tasks (finish_task dec o t others s)
  unfolding finish_task
  finish_task-Sound t others s g one p h =
      let unsettled = unsettled-of_reported t others s p h in
      let released = released-Core t others s p h.core in
      next-Sound s.aborted _ g one released unsettled
