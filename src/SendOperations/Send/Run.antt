-- ===== src/SendOperations/Send/Run.antt =====
-- `runSendOperation`: the claim, the submission and the record of its outcome. The request is given
-- by its digest, what `hashSendRequest` returns for it.
use Prim.Native.String.{String}
use supamail.Common.{Bool, not, Option, none, some, Outcome, ok, throw, if◌then◌else◌}
use supamail.SendOperations.{
  SendOperationStatus, succeeded, not_delivered, unknown, SendError, SendOperationIdentity,
  SendOperation, claimed, replayed, reconciled, provider_started, provider_accepted,
  provider_not_delivered, provider_unknown, Calls, done, raise, same_send_operation, safe_failure,
  stored_error,
}
use supamail.SendOperations.Flow.{◌>>=◌, ◌>>◌, attempt, get, start, finish, execute}
use supamail.SendOperations.Send.{
  conflict_if, assert_operation_key, notify_transition, has_message_id, Reconcile, finish_succeeded,
  reconcile_operation, resolve_unknown, resolve_existing_operation,
}

module _ {T : Type 0} where
  -- `if (row.status === "succeeded") return row.result;`
  unfoldable pub succeeded_or :
      Calls T (Option T) → SendOperationStatus → Option T → Calls T (Option T)
  succeeded_or otherwise succeeded result = done result
  succeeded_or otherwise _ result = otherwise

  -- What follows the last `finish`, whose own failure is caught.
  unfoldable pub finished_or :
      Calls T (Option T) → Outcome SendError (Option (SendOperation T)) → Calls T (Option T)
  finished_or otherwise (ok (some row)) = succeeded_or otherwise row.status row.result
  finished_or otherwise (ok none) = otherwise
  finished_or otherwise (throw error) = otherwise

  -- The catch block of `runSendOperation`, after a failure that proves non-delivery.
  unfoldable pub settle_not_delivered : String → SendError → Calls T (Option T)
  settle_not_delivered key error = do
    finished ← attempt (finish key not_delivered none (some (stored_error error)))
    finished_or (raise error) finished

  unfoldable pub settle_unknown :
      Bool → Reconcile T → SendOperationIdentity → String → SendError → Calls T (Option T)
  settle_unknown on_transition rec row key error = do
    finished ← attempt (finish key unknown none (some (stored_error error)))
    finished_or (resolve_unknown on_transition rec row key) finished

  -- What follows the submission.
  unfoldable pub settle :
      Bool → Reconcile T → SendOperationIdentity → String → Outcome SendError T → Calls T (Option T)
  settle on_transition rec row key (ok result) = do
    notify_transition on_transition provider_accepted
    sent ← finish_succeeded key result
    done (some sent)
  settle on_transition rec row key (throw error) =
      if safe_failure error
      then notify_transition on_transition provider_not_delivered >> settle_not_delivered key error
      else notify_transition on_transition provider_unknown
        >> settle_unknown on_transition rec row key error

  -- From the claim on: submit, and record the outcome.
  unfoldable pub submit : Bool → Reconcile T → SendOperationIdentity → String → Calls T (Option T)
  submit on_transition rec row key = do
    notify_transition on_transition claimed
    notify_transition on_transition provider_started
    outcome ← attempt execute
    settle on_transition rec row key outcome

  -- A row that another attempt owns.
  unfoldable pub replay_existing :
      Bool → Reconcile T → SendOperation T → String → Calls T (Option T)
  replay_existing on_transition rec row key = do
    result ← resolve_existing_operation on_transition rec row key
    notify_transition on_transition replayed
    done result

  unfoldable pub start_and_submit : Bool → Reconcile T → SendOperationIdentity → Calls T (Option T)
  start_and_submit on_transition rec operation = do
    (is_claimed, row) ← start operation
    conflict_if (not (same_send_operation row.identity operation))
    if is_claimed
        then submit on_transition rec row.identity operation.operation_key
        else replay_existing on_transition rec row operation.operation_key

  unfoldable pub record_claimed : Bool → SendOperationIdentity → String → T → Calls T (Option T)
  record_claimed on_transition row key recovered = do
    notify_transition on_transition claimed
    result ← reconcile_operation (some (λ _. done (some recovered))) row key
    notify_transition on_transition reconciled
    done result

  -- Sent evidence from before the claim: record it under a claim, without a submission.
  unfoldable pub record_recovered :
      Bool → Reconcile T → SendOperationIdentity → T → Calls T (Option T)
  record_recovered on_transition rec operation recovered = do
    (is_claimed, row) ← start operation
    conflict_if (not (same_send_operation row.identity operation))
    if is_claimed
        then record_claimed on_transition row.identity operation.operation_key recovered
        else replay_existing on_transition rec row operation.operation_key

  -- `reconcile && rfcMessageId ? await reconcile(existing ?? operation) : null`
  unfoldable pub early_lookup :
      Reconcile T → Option String → SendOperationIdentity → Calls T (Option T)
  early_lookup none rfc_message_id row = done none
  early_lookup (some lookup) rfc_message_id row =
      if has_message_id rfc_message_id then lookup row else done none

  -- `if (recovered)`
  unfoldable pub recorded_or :
      (T → Calls T (Option T)) → Calls T (Option T) → Option T → Calls T (Option T)
  recorded_or record_it otherwise (some result) = record_it result
  recorded_or record_it otherwise none = otherwise

  unfoldable pub lookup_first :
      Bool → Reconcile T → SendOperationIdentity → SendOperationIdentity → Calls T (Option T)
  lookup_first on_transition rec operation row = do
    recovered ← early_lookup rec operation.rfc_message_id row
    recorded_or (record_recovered on_transition rec operation)
        (start_and_submit on_transition rec operation) recovered

  -- `if (existing.status === "not_delivered")`
  unfoldable pub retryable_or :
      Calls T (Option T) → Calls T (Option T) → SendOperationStatus → Calls T (Option T)
  retryable_or retry otherwise not_delivered = retry
  retryable_or retry otherwise _ = otherwise

  -- From the row that the store has for the key.
  unfoldable pub after_lookup :
      Bool → Reconcile T → SendOperationIdentity → Option (SendOperation T) → Calls T (Option T)
  after_lookup on_transition rec operation none = lookup_first on_transition rec operation operation
  after_lookup on_transition rec operation (some row) =
      conflict_if (not (same_send_operation row.identity operation))
      >> retryable_or (lookup_first on_transition rec operation row.identity)
          (start_and_submit on_transition rec operation) row.status

  unfoldable pub run_send_operation :
      Bool → Reconcile T → SendOperationIdentity → Calls T (Option T)
  run_send_operation on_transition rec operation = do
    assert_operation_key operation.operation_key
    existing ← get operation.operation_key
    after_lookup on_transition rec operation existing
