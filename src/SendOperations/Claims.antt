-- ===== src/SendOperations/Claims.antt =====
-- `runSendOperation` against every store, provider and Sent lookup: what an attempt does with the
-- claim, with the provider, and how it ends.
pub mod Parts
use Prim.Native.String.{String}
use supamail.Common.{
  ◌≡◌, refl, sym, subst, Bool, true, false, Option, none, some, Outcome, ok, throw, if◌then◌else◌,
}
use supamail.SendOperations.{
  SendOperationStatus, submitting, succeeded, not_delivered, unknown, SendError, operation_error,
  smtp_delivery_error, smtp_not_delivered, smtp_unknown, other_error, idempotency_conflict,
  idempotency_required, operation_in_progress, delivery_unknown, SendOperationIdentity,
  SendOperation, SendTransition, provider_not_delivered, provider_unknown, replayed, reconciled,
  Calls, done, raise, is_valid_idempotency_key, same_send_operation, safe_failure, stored_error,
}
use supamail.SendOperations.Flow.{◌>>=◌, ◌>>◌, attempt, get, reconcile, finish}
use supamail.SendOperations.Phases.{
  Phase, answers, returns, raises, gets, starts, refreshes, finishes, reconciles, executes,
  notifies, idle, claiming, accepted, uncertain, releasable, released, Runs, Runs-bind,
  may_have_accepted, after_start, after_execute,
}
use supamail.SendOperations.Send.{
  Reconcile, notify_transition, conflict_if, has_message_id, finish_succeeded, reconcile_operation,
  recovered_by, record_sent, sent_or_unknown, resolve_unknown, resolve_status,
  resolve_existing_operation, assert_operation_key,
}
use supamail.SendOperations.Send.Run.{
  succeeded_or, finished_or, settle, settle_not_delivered, settle_unknown, submit, replay_existing,
  start_and_submit, record_claimed, record_recovered, early_lookup, recorded_or, retryable_or,
  after_lookup, lookup_first, run_send_operation,
}
use Parts.{
  host_lookup, Returned, Threw, Runs-notify, Runs-finish_succeeded, Runs-record_sent,
  Runs-reconcile_operation, Runs-early_lookup, Runs-sent_or_unknown, Runs-resolve_unknown,
  Runs-succeeded_or, Runs-finished_or, Runs-conflict_if, Runs-resolve_status,
}

-- `safeFailure` is false exactly on the errors after which the provider may hold the message.
safe_failure-may_have_accepted :
    (e : SendError) → safe_failure e ≡ true → may_have_accepted e ≡ true → ⊥
unfolding safe_failure
safe_failure-may_have_accepted (operation_error code) h k = cc
safe_failure-may_have_accepted (smtp_delivery_error smtp_not_delivered) h k = cc
safe_failure-may_have_accepted (smtp_delivery_error smtp_unknown) h k = cc
safe_failure-may_have_accepted (other_error name outcome) h k = cc
safe_failure-may_have_accepted _ h k = cc

may_have_accepted-safe_failure :
    (e : SendError) → safe_failure e ≡ false → may_have_accepted e ≡ false → ⊥
unfolding safe_failure
may_have_accepted-safe_failure (operation_error code) h k = cc
may_have_accepted-safe_failure (smtp_delivery_error smtp_not_delivered) h k = cc
may_have_accepted-safe_failure (smtp_delivery_error smtp_unknown) h k = cc
may_have_accepted-safe_failure (other_error name outcome) h k = cc
may_have_accepted-safe_failure _ h k = cc

module _ {T : Type 0} (on b : Bool) where
  Runs-settle_not_delivered :
      (key : String) (e : SendError)
      → may_have_accepted e ≡ false
      → Runs {T = T} Returned Threw releasable (settle_not_delivered key e)
  unfolding settle_not_delivered
  Runs-settle_not_delivered key e h =
      finishes (λ _. refl)
        (answers _ (λ row. Runs-finished_or (raise e) (ok row) (λ _. tt) (raises h))
          (λ x. Runs-finished_or (raise e) (throw x) (λ _. tt) (raises h)))

  Runs-settle_unknown :
      (row : SendOperationIdentity) (key : String) (e : SendError)
      → Runs {T = T} Returned Threw uncertain (settle_unknown on (host_lookup b) row key e)
  unfolding settle_unknown
  Runs-settle_unknown row key e =
      let rest = Runs-resolve_unknown on b row key (λ t. tt) refl in
      finishes (λ e. cc)
        (answers _ (λ row. Runs-finished_or _ (ok row) (λ _. tt) rest)
          (λ x. Runs-finished_or _ (throw x) (λ _. tt) rest))

  Runs-failure :
      (row : SendOperationIdentity) (key : String) (e : SendError) (s m : Bool)
      → safe_failure e ≡ s
      → may_have_accepted e ≡ m
      → Runs {T = T} Returned Threw (if m then uncertain else releasable) (
          if s
          then notify_transition on provider_not_delivered >> settle_not_delivered key e
          else notify_transition on provider_unknown >> settle_unknown on (host_lookup b) row key e)
  Runs-failure row key e true false h k = Runs-notify on _ _ (Runs-settle_not_delivered key e k)
  Runs-failure row key e false true h k = Runs-notify on _ _ (Runs-settle_unknown row key e)
  Runs-failure row key e true true h k = absurd (safe_failure-may_have_accepted e h k)
  Runs-failure row key e false false h k = absurd (may_have_accepted-safe_failure e h k)

  Runs-settle :
      (row : SendOperationIdentity) (key : String) (o : Outcome SendError T)
      → Runs {T = T} Returned Threw (after_execute o) (settle on (host_lookup b) row key o)
  unfolding settle
  Runs-settle row key (ok result) =
      Runs-notify on _ _ (Runs-finish_succeeded key result _ (λ t. returns (λ e. cc)))
  Runs-settle row key (throw e) =
      Runs-failure row key e (safe_failure e) (may_have_accepted e) refl refl

  Runs-submit :
      (row : SendOperationIdentity) (key : String)
      → Runs {T = T} Returned Threw claiming (submit on (host_lookup b) row key)
  unfolding submit
  Runs-submit row key = Runs-notify on _ _ (
      Runs-notify on _ _ (
        executes
          (answers _ (λ t. Runs-settle row key (ok t)) (λ e. Runs-settle row key (throw e)))))

  Runs-replay_existing :
      (row : SendOperation T) (key : String)
      → Runs Returned Threw idle (replay_existing on (host_lookup b) row key)
  unfolding replay_existing resolve_existing_operation
  Runs-replay_existing row key =
      Runs-bind {Q = λ q r. Runs {T = T} Returned Threw q (notify_transition on replayed >> done r)}
        (λ q r h. h)
        (Runs-resolve_status _ row.status row.result (Runs-notify on _ _ (returns tt)) tt
          (Runs-resolve_unknown on b _ key (λ _. Runs-notify on _ _ (returns tt)) tt))

  Runs-record_claimed :
      (row : SendOperationIdentity) (key : String) (t : T)
      → Runs Returned Threw claiming (record_claimed on row key t)
  unfolding record_claimed reconcile_operation recovered_by record_sent
  Runs-record_claimed row key t =
      Runs-notify on _ _ (Runs-recorded (has_message_id row.rfc_message_id))
    where
      last :
          (r : Option T)
          → Runs {T = T} Returned Threw claiming (notify_transition on reconciled >> done r)
      last r = Runs-notify on _ _ (returns tt)

      Runs-recorded :
          (has : Bool)
          → Runs {T = T} Returned Threw claiming (
              (if has then (do sent ← finish_succeeded key t; done (some sent)) else done none)
              >>= λ r. notify_transition on reconciled >> done r)
      Runs-recorded true =
          Runs-bind
            {Q = λ q r. Runs {T = T} Returned Threw q (notify_transition on reconciled >> done r)}
            (λ q r h. h) (Runs-finish_succeeded key t _ (λ sent. returns (last (some sent))))
      Runs-recorded false = last none

  -- After the answer to `start`.
  Runs-started :
      (m : Calls T (Option T)) (key : String) (t : Bool)
      → Runs Returned Threw claiming m
      → (a : Bool × SendOperation T)
      → Runs Returned Threw
          (after_start (ok a))
          (conflict_if t >> (if a.0 then m else replay_existing on (host_lookup b) a.1 key))
  Runs-started m key t h (true, row) = Runs-conflict_if t _ refl h
  Runs-started m key t h (false, row) = Runs-conflict_if t _ tt (Runs-replay_existing row key)

  module _ (operation : SendOperationIdentity) where
    Runs-start_and_submit :
        Runs {T = T} Returned Threw idle (start_and_submit on (host_lookup b) operation)
    unfolding start_and_submit
    Runs-start_and_submit = starts (
        answers _ (λ a. Runs-started _ operation.operation_key _ (Runs-submit _ _) a)
          (λ e. raises tt))

    Runs-record_recovered :
        (t : T) → Runs {T = T} Returned Threw idle (record_recovered on (host_lookup b) operation t)
    unfolding record_recovered
    Runs-record_recovered t = starts (
        answers _ (λ a. Runs-started _ operation.operation_key _ (Runs-record_claimed _ _ t) a)
          (λ e. raises tt))

    Runs-recorded_or :
        (o : Option T)
        → Runs {T = T} Returned Threw idle (
            recorded_or
              (record_recovered on (host_lookup b) operation)
              (start_and_submit on (host_lookup b) operation)
              o)
    unfolding recorded_or
    Runs-recorded_or none = Runs-start_and_submit
    Runs-recorded_or (some t) = Runs-record_recovered t

    Runs-lookup_first :
        (row : SendOperationIdentity)
        → Runs {T = T} Returned Threw idle (lookup_first on (host_lookup b) operation row)
    unfolding lookup_first
    Runs-lookup_first row =
        Runs-early_lookup b operation.rfc_message_id row _ Runs-recorded_or (λ e. tt)

    Runs-retryable_or :
        (m n : Calls T (Option T)) (s : SendOperationStatus)
        → Runs {T = T} Returned Threw idle m
        → Runs {T = T} Returned Threw idle n
        → Runs {T = T} Returned Threw idle (retryable_or m n s)
    unfolding retryable_or
    Runs-retryable_or m n not_delivered h k = h
    Runs-retryable_or m n submitting h k = k
    Runs-retryable_or m n succeeded h k = k
    Runs-retryable_or m n unknown h k = k

    Runs-after_lookup :
        (row : Option (SendOperation T))
        → Runs Returned Threw idle (after_lookup on (host_lookup b) operation row)
    unfolding after_lookup
    Runs-after_lookup none = Runs-lookup_first operation
    Runs-after_lookup (some row) =
        Runs-conflict_if _ _ tt
          (Runs-retryable_or _ _ row.status (Runs-lookup_first row.identity) Runs-start_and_submit)

    -- Whatever the store, the provider and the Sent lookup answer, an attempt asks for a claim only
    -- while it holds none, submits only under a claim that it was granted and at most once for it,
    -- and marks the operation `not_delivered` only after a submission that failed safely. If the
    -- provider accepted the message the attempt returns a result and throws nothing; if it may have,
    -- the attempt returns or throws `delivery_unknown`; if it marked the operation `not_delivered`,
    -- it returns or throws an error that proves non-delivery.
    pub run_send_operation-Runs :
        Runs {T = T} Returned Threw idle (run_send_operation on (host_lookup b) operation)
    unfolding run_send_operation
    run_send_operation-Runs =
        elim (is_valid_idempotency_key operation.operation_key)
          as (λ valid. Runs {T = T} Returned Threw idle (
            (if valid then done tt else raise (operation_error idempotency_required))
            >> (get operation.operation_key >>= after_lookup on (host_lookup b) operation))) [
              | false ↦ raises tt
              | true ↦ gets (answers _ Runs-after_lookup (λ e. raises tt))
            ]
