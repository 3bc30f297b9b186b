-- ===== src/TargetScheduler/Guarantees.antt =====
-- What `runRuntimeTargetTasks` promises, in every state that a call reaches.
use supamail.Common.{
  ℕ, ◌+◌, ◌≤◌, ◌<◌, ◌≡◌, refl, sym, ap, ◌∙◌, subst, ◌≢◌, ◌↔◌, ◌⊎◌, inl, inr, Bool, true, false,
  Option, none, some, List, [], ◌∷◌, length, sum_of, ltb, ◌==◌, ==_iff, Bool-cases, Outcome, ok,
  throw, >>=-eq-ok, ok-injective, throw_if, arith, if◌then◌else◌,
}
use supamail.TargetScheduler.{
  RuntimeTargetTask, RuntimeTargetSkipReason, Ending, Options, State, version_checked, pump,
  sort_task, sort_out, initial_state, run_runtime_target_tasks, get_skip_reason,
}
use supamail.MigrationId.{InvalidSchemaVersionError, assert_required_schema_version}
use supamail.TargetScheduler.Tasks.{task_of}
use supamail.TargetScheduler.Invariant.{targets, Core, Sound, pump-Sound}
use supamail.TargetScheduler.Events.{report_task-Sound, abort-Sound, finish_task-Sound}
use supamail.TargetScheduler.Steps.{Reached, started, fulfils, rejects, finishes, aborts}

module _ {K : Type 0} {V : Type 0} (required : List ℕ) (f : RuntimeTargetTask K → ℕ) where
  abbrev Sorted :
      List (RuntimeTargetTask K)
      → List (RuntimeTargetTask K × Ending V) × List (RuntimeTargetTask K)
      → Type 0
  Sorted ts r = sum_of (λ r. f (task_of r)) r.0 + sum_of f r.1 ≡ sum_of f ts

  sort_task-sum_of :
      (reason : Option RuntimeTargetSkipReason) (t : RuntimeTargetTask K)
      (ts : List (RuntimeTargetTask K))
      (r : List (RuntimeTargetTask K × Ending V) × List (RuntimeTargetTask K))
      → Sorted ts r
      → Sorted (t ∷ ts) (sort_task reason t r)
  sort_task-sum_of none t ts (rs, ps) h = omega (arith, h)
  sort_task-sum_of (some reason) t ts (rs, ps) h = omega (arith, h)

  -- The loop before the promise sorts the tasks: none is lost, none is doubled.
  sort_out-sum_of :
      (ts : List (RuntimeTargetTask K))
      (r : List (RuntimeTargetTask K × Ending V) × List (RuntimeTargetTask K))
      → sort_out required ts ≡ ok r
      → Sorted ts r
  unfolding sort_out
  sort_out-sum_of [] r e = subst (Sorted []) (ok-injective e) (omega arith)
  sort_out-sum_of (t ∷ ts) r e =
      let (reason, er, e') = >>=-eq-ok (get_skip_reason t required) _ e in
      let (sorted, es, e'') = >>=-eq-ok (sort_out required ts) _ e' in
      subst (Sorted (t ∷ ts)) (ok-injective e'')
        (sort_task-sum_of reason t ts sorted (sort_out-sum_of ts sorted es))

nothing_runnable :
    {A : Type 0} (ts : List A) → (length ts == 0) ≡ true → (0 ≡ length ts) × (ts ≡ [])
nothing_runnable [] e = (omega arith, refl)
nothing_runnable (t ∷ ts) e =
    let none_left = (==_iff (length (t ∷ ts)) 0).0 e in absurd (omega arith)

true≢false : true ≢ false
true≢false e = cc

at_least_one : (n : ℕ) → ltb n 1 ≡ false → 1 ≤ n
at_least_one n e = ground arith

throw_if-ok : {E : Type 0} (b : Bool) (e : E) (u : Unit {0}) → throw_if b e ≡ ok u → b ≡ false
throw_if-ok true e u h = cc
throw_if-ok false e u h = refl

version_checked-ok :
    {A : Type 0} (m : Outcome InvalidSchemaVersionError A) (a : A)
    → version_checked m ≡ ok a
    → m ≡ ok a
version_checked-ok (ok a) b h = ap ok (ok-injective h)
version_checked-ok (throw e) b h = cc

module _ {K : Type 0} {V : Type 0} (dec : Discrete K) (o : Options)
    (tasks : List (RuntimeTargetTask K)) where
  initial_state-Core :
      (is_aborted : Bool) (r : List (RuntimeTargetTask K × Ending V) × List (RuntimeTargetTask K))
      → sort_out o.required_schema_version tasks ≡ ok r
      → Core dec o tasks (initial_state {V = V} is_aborted r)
  unfolding initial_state
  initial_state-Core is_aborted (rs, ps) e = record {
    counted = omega arith;
    bounded = omega arith;
    by_target = λ k. omega arith;
    by_bounded = λ k. omega arith;
    totals = omega arith;
    conserved = λ f. omega (arith, sort_out-sum_of o.required_schema_version f tasks (rs, ps) e);
  }

  -- With no runnable task the results are there at once; else the first `pump` runs.
  begin-Sound :
      (b : Bool) (s : State K V)
      → 1 ≤ o.global_concurrency
      → 1 ≤ o.per_target_concurrency
      → Core dec o tasks s
      → s.settled ≡ b
      → (b ≡ true → (s.completed ≡ s.total_runnable) × (s.pending ≡ []))
      → Sound dec o tasks (if b then s else pump dec o s)
  begin-Sound true s g one h e k = record {
    core = h;
    settled_iff = (λ _. (k refl).0, λ _. e);
    busy = inl (k refl).1;
  }
  begin-Sound false s g one h e k = pump-Sound dec o tasks s g one h e

  initial_state-settled :
      (is_aborted : Bool) (r : List (RuntimeTargetTask K × Ending V) × List (RuntimeTargetTask K))
      → ((initial_state is_aborted r).settled ≡ (length r.1 == 0))
        × ((length r.1 == 0) ≡ true
            → ((initial_state is_aborted r).completed ≡ (initial_state is_aborted r).total_runnable)
              × ((initial_state is_aborted r).pending ≡ []))
  unfolding initial_state
  initial_state-settled is_aborted (rs, ps) = (refl, nothing_runnable ps)

  started-Sound :
      (is_aborted : Bool) (s : State K V)
      → run_runtime_target_tasks dec o is_aborted tasks ≡ ok s
      → (1 ≤ o.global_concurrency) × (1 ≤ o.per_target_concurrency) × Sound dec o tasks s
  unfolding run_runtime_target_tasks
  started-Sound is_aborted s e =
      let (u, eg, e1) = >>=-eq-ok (throw_if (ltb o.global_concurrency 1) _) _ e in
      let (v, ep, e2) = >>=-eq-ok (throw_if (ltb o.per_target_concurrency 1) _) _ e1 in
      let (w, ev, e3) =
        >>=-eq-ok (version_checked (assert_required_schema_version o.required_schema_version)) _
          e2 in
      let (r, er, e4) =
        >>=-eq-ok (version_checked (sort_out {V = V} o.required_schema_version tasks)) _ e3 in
      let g = at_least_one o.global_concurrency (throw_if-ok _ _ u eg) in
      let one = at_least_one o.per_target_concurrency (throw_if-ok _ _ v ep) in
      (
        g,
        one,
        subst (Sound dec o tasks) (ok-injective e4) (
            begin-Sound (length r.1 == 0) (initial_state is_aborted r) g one
              (initial_state-Core is_aborted r (version_checked-ok _ r er))
              (initial_state-settled is_aborted r).0 (initial_state-settled is_aborted r).1),
      )

  Reached-Sound :
      {s : State K V}
      → Reached dec o tasks s
      → (1 ≤ o.global_concurrency) × (1 ≤ o.per_target_concurrency) × Sound dec o tasks s
  Reached-Sound (started is_aborted e) = started-Sound is_aborted _ e
  Reached-Sound (fulfils value r p) =
      let (g, one, h) = Reached-Sound r in (g, one, report_task-Sound dec o tasks _ _ _ _ p h)
  Reached-Sound (rejects error r p) =
      let (g, one, h) = Reached-Sound r in (g, one, report_task-Sound dec o tasks _ _ _ _ p h)
  Reached-Sound (finishes r p) =
      let (g, one, h) = Reached-Sound r in (g, one, finish_task-Sound dec o tasks _ _ _ g one p h)
  Reached-Sound (aborts r e) =
      let (g, one, h) = Reached-Sound r in (g, one, abort-Sound dec o tasks _ h)

  -- In every state that a call reaches, at most `globalConcurrency` tasks run, and at most
  -- `perTargetConcurrency` of each target; a task runs from its start to the end of its `finally`.
  pub Reached-bounded :
      {s : State K V}
      → Reached dec o tasks s
      → (length s.in_flight + length s.reported ≤ o.global_concurrency)
        × ((k : K)
            → sum_of (targets dec k) s.in_flight + sum_of (targets dec k) s.reported
              ≤ o.per_target_concurrency)
  Reached-bounded r =
      let (g, one, h) = Reached-Sound r in
      (
        omega (arith, h.core.counted, h.core.bounded),
        λ k. omega (arith, h.core.by_target k, h.core.by_bounded k),
      )

  -- In every state that a call reaches, the tasks with a result, the pending ones and those in flight
  -- are together the tasks of the call: under every measure they weigh the same. Once the promise is
  -- resolved no task is pending or running, so its results name every task of the call once.
  pub Reached-conserved :
      {s : State K V}
      → Reached dec o tasks s
      → ((f : RuntimeTargetTask K → ℕ)
          → sum_of (λ r. f (task_of r)) s.results + sum_of f s.pending + sum_of f s.in_flight
            ≡ sum_of f tasks)
        × (s.settled ≡ true
            → (length s.pending ≡ 0)
              × (length s.in_flight + length s.reported ≡ 0)
              × ((f : RuntimeTargetTask K → ℕ)
                  → sum_of (λ r. f (task_of r)) s.results ≡ sum_of f tasks))
  Reached-conserved {s} r =
      let (g, one, h) = Reached-Sound r in
      (
        h.core.conserved,
        λ e.
            let done : s.completed ≡ s.total_runnable = h.settled_iff.0 e in
            let p : length s.pending ≡ 0 = omega (arith, h.core.totals) in
            let q : length s.in_flight + length s.reported ≡ 0 =
              omega (arith, h.core.totals, h.core.counted) in
            (
              p,
              q,
              λ f. omega (
                arith,
                h.core.conserved f,
                no_tasks f s.pending p,
                no_tasks f s.in_flight (omega arith),
              ),
            ),
      )
    where
      no_tasks :
          (f : RuntimeTargetTask K → ℕ) (ts : List (RuntimeTargetTask K))
          → length ts ≡ 0
          → sum_of f ts ≡ 0
      no_tasks f [] e = refl
      no_tasks f (t ∷ ts) e = absurd (omega arith)

  -- A call does not get stuck: in every state that it reaches, either the promise is resolved, or some
  -- task is in flight or about to run its `finally`. The promise is resolved exactly when every
  -- runnable task is completed.
  pub Reached-progress :
      {s : State K V}
      → Reached dec o tasks s
      → ((s.settled ≡ true) ⊎ (0 < length s.in_flight + length s.reported))
        × ((s.settled ≡ true) ↔ (s.completed ≡ s.total_runnable))
  Reached-progress {s} r =
      let (g, one, h) = Reached-Sound r in
      (elim (Bool-cases s.settled) [ inl e ↦ inl e | inr e ↦ inr (running_of h e) ], h.settled_iff)
    where
      running_of :
          Sound dec o tasks s → s.settled ≡ false → 0 < length s.in_flight + length s.reported
      running_of h e = elim h.busy [
        | inr busy ↦ omega (arith, h.core.counted)
        | inl none_pending ↦
            let open_promise : s.completed ≢ s.total_runnable =
              λ k. true≢false (sym (h.settled_iff.1 k) ∙ e) in
            let empty : length s.pending ≡ 0 = ap length none_pending in
            omega (arith, h.core.counted, h.core.totals)
      ]
