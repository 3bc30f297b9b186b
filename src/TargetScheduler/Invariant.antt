-- ===== src/TargetScheduler/Invariant.antt =====
-- What holds in every state that a call of `runRuntimeTargetTasks` reaches.
use supamail.Common.{
  ℕ, zero, suc, ◌+◌, ◌-◌, ◌≤◌, ◌<◌, ◌≡◌, refl, sym, ap, ◌∙◌, ◌↔◌, ◌⊎◌, inl, inr, Bool, true, false,
  Option, none, some, List, [], ◌∷◌, length, sum_of, ltb, leb, ◌==◌, ==_iff, arith, if◌then◌else◌,
  ltb→lt,
}
use mathlib.Core.Logic.{ite, dite}
use supamail.TargetScheduler.{
  RuntimeTargetTask, Options, State, count_of, one_less, take_ready, release_target, maybe_resolve,
  skip_pending_for_abort, start_task, pump_rounds, pump,
}
use supamail.TargetScheduler.Tasks.{
  task_of, Picks-sum_of, Picks-length, sum_of-skipped, take_ready-some, take_ready-none,
}
use supamail.TargetScheduler.Steps.{Picks}

-- Whether a task is one of the target, as a number.
abbrev pub targets : {K : Type 0} → Discrete K → K → RuntimeTargetTask K → ℕ
targets dec k t = ite (dec k t.target_id) 1 0

targets-length :
    {K : Type 0} (dec : Discrete K) (k : K) (ts : List (RuntimeTargetTask K))
    → sum_of (targets dec k) ts ≤ length ts
targets-length dec k [] = omega arith
targets-length dec k (t ∷ ts) = ground (arith, targets-length dec k ts)

left-count :
    (o : Option ℕ)
    → count_of (if leb (one_less o) 0 then none else some (one_less o)) ≡ count_of o - 1
left-count none = omega arith
left-count (some n) = ground arith

pub release_target-count :
    {K : Type 0} (dec : Discrete K) (t : RuntimeTargetTask K) (k : K) (run : K → Option ℕ)
    → count_of (release_target dec t.target_id run k) ≡ count_of (run k) - targets dec k t
unfolding release_target
release_target-count dec t k run =
    elim (dec k t.target_id)
      as (λ d.
        count_of (
          dite d
            (λ _.
              if leb (one_less (run t.target_id)) 0
              then none
              else some (one_less (run t.target_id)))
            (λ _. run k))
        ≡ count_of (run k) - dite d (λ _. 1) (λ _. 0)) [
          | yes e ↦ left-count (run t.target_id) ∙ ap (λ j. count_of (run j) - 1) (sym e)
          | no ne ↦ omega arith
        ]

module _ {K : Type 0} {V : Type 0} (dec : Discrete K) (o : Options)
    (tasks : List (RuntimeTargetTask K)) where
  -- The books of the scheduler, between any two of its statements.
  pub record Core (s : State K V) : Type 0 where
    pub counted : s.running ≡ length s.in_flight + length s.reported
    pub bounded : s.running ≤ o.global_concurrency
    pub by_target :
        (k : K)
        → count_of (s.running_by_target k)
          ≡ sum_of (targets dec k) s.in_flight + sum_of (targets dec k) s.reported
    pub by_bounded : (k : K) → count_of (s.running_by_target k) ≤ o.per_target_concurrency
    pub totals : s.completed + s.running + length s.pending ≡ s.total_runnable
    pub conserved :
        (f : RuntimeTargetTask K → ℕ)
        → sum_of (λ r. f (task_of r)) s.results + sum_of f s.pending + sum_of f s.in_flight
          ≡ sum_of f tasks

  -- The books between two events.
  pub record Sound (s : State K V) : Type 0 where
    pub core : Core s
    pub settled_iff : (s.settled ≡ true) ↔ (s.completed ≡ s.total_runnable)
    pub busy : (s.pending ≡ []) ⊎ (0 < s.running)

  maybe_resolve-Sound :
      (s : State K V)
      → Core s
      → s.settled ≡ false
      → (s.pending ≡ []) ⊎ (0 < s.running)
      → Sound (maybe_resolve s)
  unfolding maybe_resolve
  maybe_resolve-Sound s h unsettled busy = resolved_or_not (s.completed == s.total_runnable) refl
    where
      resolved_or_not :
          (b : Bool)
          → (s.completed == s.total_runnable) ≡ b
          → Sound (if b then record s { settled = true } else s)
      resolved_or_not true e = record {
        core = record {
          counted = h.counted;
          bounded = h.bounded;
          by_target = h.by_target;
          by_bounded = h.by_bounded;
          totals = h.totals;
          conserved = h.conserved;
        };
        settled_iff = (λ _. (==_iff _ _).0 e, λ _. refl);
        busy = busy;
      }
      resolved_or_not false e = record {
        core = h;
        settled_iff = (λ k. cc, λ k. let t = (==_iff s.completed s.total_runnable).1 k in cc);
        busy = busy;
      }

  pub skip_pending_for_abort-Sound :
      (s : State K V) → Core s → s.settled ≡ false → Sound (skip_pending_for_abort s)
  unfolding skip_pending_for_abort
  skip_pending_for_abort-Sound s h unsettled =
      maybe_resolve-Sound _
        (record {
          counted = h.counted;
          bounded = h.bounded;
          by_target = h.by_target;
          by_bounded = h.by_bounded;
          totals = omega (arith, h.totals);
          conserved = λ f. omega (arith, h.conserved f, sum_of-skipped f s.results s.pending);
        })
        unsettled (inl refl)

  start_task-Core :
      (t : RuntimeTargetTask K) (rest : List (RuntimeTargetTask K)) (s : State K V)
      → s.running < o.global_concurrency
      → count_of (s.running_by_target t.target_id) < o.per_target_concurrency
      → Picks t s.pending rest
      → Core s
      → Core (start_task dec t rest s)
  unfolding start_task
  start_task-Core t rest s room free p h = record {
    counted = omega (arith, h.counted);
    bounded = omega arith;
    by_target = λ k. ground (arith, h.by_target k);
    by_bounded = λ k. ground (arith, h.by_bounded k);
    totals = omega (arith, h.totals, Picks-length p);
    conserved = λ f. omega (arith, h.conserved f, Picks-sum_of f p);
  }

  -- With limits of one at least, a task waits only while some task runs.
  busy-of_full :
      (s : State K V)
      → 1 ≤ o.per_target_concurrency
      → Core s
      → (s.pending ≡ []) ⊎ ((k : K) × (o.per_target_concurrency ≤ count_of (s.running_by_target k)))
      → (s.pending ≡ []) ⊎ (0 < s.running)
  busy-of_full s one h (inl e) = inl e
  busy-of_full s one h (inr (k, full)) = inr (
      omega (
        arith,
        h.counted,
        h.by_target k,
        targets-length dec k s.in_flight,
        targets-length dec k s.reported,
      ))

  pump_round-Sound :
      (s : State K V) (next : RuntimeTargetTask K × List (RuntimeTargetTask K) → State K V)
      (room is_aborted : Bool) (taken : Option (RuntimeTargetTask K × List (RuntimeTargetTask K)))
      → 1 ≤ o.global_concurrency
      → 1 ≤ o.per_target_concurrency
      → Core s
      → s.settled ≡ false
      → ltb s.running o.global_concurrency ≡ room
      → take_ready o.per_target_concurrency s.running_by_target s.pending ≡ taken
      → ((p : RuntimeTargetTask K × List (RuntimeTargetTask K))
          → Core (start_task dec p.0 p.1 s)
          → Picks p.0 s.pending p.1
          → Sound (next p))
      → Sound (
          if room
          then if is_aborted
            then skip_pending_for_abort s
            else elim taken [ none ↦ maybe_resolve s | some p ↦ next p ]
          else maybe_resolve s)
  pump_round-Sound s next false b taken g one h unsettled e t k =
      maybe_resolve-Sound s h unsettled (inr (ground arith))
  pump_round-Sound s next true true taken g one h unsettled e t k =
      skip_pending_for_abort-Sound s h unsettled
  pump_round-Sound s next true false none g one h unsettled e t k =
      maybe_resolve-Sound s h unsettled (
        busy-of_full s one h
          (take_ready-none o.per_target_concurrency s.running_by_target s.pending t))
  pump_round-Sound s next true false (some p) g one h unsettled e t k =
      let (free, picks) =
        take_ready-some o.per_target_concurrency s.running_by_target s.pending p t in
      k p (start_task-Core p.0 p.1 s (ltb→lt _ _ e) free picks h) picks

  pump_rounds-Sound :
      (fuel : ℕ) (s : State K V)
      → 1 ≤ o.global_concurrency
      → 1 ≤ o.per_target_concurrency
      → length s.pending < fuel
      → Core s
      → s.settled ≡ false
      → Sound (pump_rounds dec fuel o s)
  unfolding pump_rounds
  pump_rounds-Sound zero s g one enough h unsettled = absurd (omega arith)
  pump_rounds-Sound (suc fuel) s g one enough h unsettled =
      pump_round-Sound s (λ p. pump_rounds dec fuel o (start_task dec p.0 p.1 s)) _ s.aborted _ g
        one h unsettled refl refl
        (λ p started_core picks.
          pump_rounds-Sound fuel (start_task dec p.0 p.1 s) g one (fewer p picks) started_core
            (unfold start_task in unsettled))
    where
      fewer :
          (p : RuntimeTargetTask K × List (RuntimeTargetTask K))
          → Picks p.0 s.pending p.1
          → length (start_task dec p.0 p.1 s).pending < fuel
      fewer p picks = unfold start_task in omega (arith, Picks-length picks)

  pub pump-Sound :
      (s : State K V)
      → 1 ≤ o.global_concurrency
      → 1 ≤ o.per_target_concurrency
      → Core s
      → s.settled ≡ false
      → Sound (pump dec o s)
  unfolding pump
  pump-Sound s g one h unsettled =
      elim s.aborted
        as (λ b.
          Sound (
            if b then skip_pending_for_abort s else pump_rounds dec (suc (length s.pending)) o s)) [
              | true ↦ skip_pending_for_abort-Sound s h unsettled
              | false ↦ pump_rounds-Sound _ s g one (omega arith) h unsettled
            ]
