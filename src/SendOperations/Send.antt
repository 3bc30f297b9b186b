-- ===== src/SendOperations/Send.antt =====
-- `replaySendOperation`, and what it shares with `runSendOperation`. The request is given by its
-- digest, what `hashSendRequest` returns for it.
pub mod Run
pub mod Laws
use Prim.Native.String.{String}
use text.Mathlib.Text.{◌==◌}
use supamail.Common.{
  Bool, true, false, not, ◌&&◌, Option, none, some, Outcome, ok, throw, if◌then◌else◌,
}
use supamail.SendOperations.{
  SendOperationStatus, submitting, succeeded, not_delivered, unknown, idempotency_required,
  idempotency_conflict, operation_in_progress, delivery_unknown, SendError, operation_error,
  SendOperationIdentity, SendOperation, SendTransition, claimed, replayed, reconciled,
  provider_started, provider_accepted, provider_not_delivered, provider_unknown, Calls, done, raise,
  is_valid_idempotency_key, same_send_operation, same_intent, safe_failure, stored_error,
}
use supamail.SendOperations.Flow.{
  ◌>>=◌, ◌>>◌, attempt, get, start, refresh, finish, reconcile, execute, transition,
}

abbrev conflict : {T A : Type 0} → Calls T A
conflict = raise (operation_error idempotency_conflict)

-- `if (test) throw conflict();`
abbrev pub conflict_if : {T : Type 0} → Bool → Calls T (Unit {0})
conflict_if true = conflict
conflict_if false = done tt

abbrev pub assert_operation_key : {T : Type 0} → String → Calls T (Unit {0})
assert_operation_key key =
    if is_valid_idempotency_key key then done tt else raise (operation_error idempotency_required)

-- `callback?.(stage)` with every exception swallowed.
abbrev pub notify_transition : {T : Type 0} → Bool → SendTransition → Calls T (Unit {0})
notify_transition on_transition stage =
    if on_transition then attempt (transition stage) >> done tt else done tt

-- `!row.rfcMessageId`: null and the empty text are falsy.
abbrev pub has_message_id : Option String → Bool
has_message_id none = false
has_message_id (some id) = not (id == "")

-- `finished?.result ?? known`
abbrev pub result_or : {T : Type 0} → Option (SendOperation T) → T → T
result_or none known = known
result_or (some row) known = elim row.result [ none ↦ known | some result ↦ result ]

-- The result of `replaySendOperation`; the account of a retryable row comes with it.
pub data Replay (T : Type 0) : Type 0 where
  not_found : Option String → Replay T
  found : Option T → Replay T

-- The optional Sent lookup.
abbrev pub Reconcile : Type 0 → Type 0
Reconcile T = Option (SendOperationIdentity → Calls T (Option T))

module _ {T : Type 0} where
  -- The `try` around the last `finish`: a ledger outage does not hide a known result.
  unfoldable pub finish_succeeded : String → T → Calls T T
  finish_succeeded key result = do
    finished ← attempt (finish key succeeded (some result) none)
    elim finished [ ok row ↦ done (result_or row result) | throw _ ↦ done result ]

  -- `if (!recovered) return null;`, and the record of a result that is there.
  unfoldable pub record_sent : String → Option T → Calls T (Option T)
  record_sent key none = done none
  record_sent key (some result) = do sent ← finish_succeeded key result; done (some sent)

  unfoldable pub recovered_by :
      (SendOperationIdentity → Calls T (Option T))
      → SendOperationIdentity
      → String
      → Calls T (Option T)
  recovered_by lookup row key = lookup row >>= record_sent key

  unfoldable pub reconcile_operation :
      Reconcile T → SendOperationIdentity → String → Calls T (Option T)
  reconcile_operation none row key = done none
  reconcile_operation (some lookup) row key =
      if has_message_id row.rfc_message_id then recovered_by lookup row key else done none

  -- A recovered result, or the error for an outcome that stays unknown.
  unfoldable pub sent_or_unknown : Bool → Outcome SendError (Option T) → Calls T (Option T)
  sent_or_unknown on_transition (ok (some result)) = do
    notify_transition on_transition reconciled
    done (some result)
  sent_or_unknown on_transition (ok none) = raise (operation_error delivery_unknown)
  sent_or_unknown on_transition (throw error) = raise (operation_error delivery_unknown)

  unfoldable pub resolve_unknown :
      Bool → Reconcile T → SendOperationIdentity → String → Calls T (Option T)
  resolve_unknown on_transition rec row key =
      attempt (reconcile_operation rec row key) >>= sent_or_unknown on_transition

  unfoldable pub resolve_status :
      Calls T (Option T) → SendOperationStatus → Option T → Calls T (Option T)
  resolve_status lookup succeeded result = done result
  resolve_status lookup unknown result = lookup
  resolve_status lookup _ result = raise (operation_error operation_in_progress)

  unfoldable pub resolve_existing_operation :
      Bool → Reconcile T → SendOperation T → String → Calls T (Option T)
  resolve_existing_operation on_transition rec row key =
      resolve_status (resolve_unknown on_transition rec row.identity key) row.status row.result

  -- The end of a replay, for a row that is not retryable.
  unfoldable pub replay_found : Reconcile T → SendOperation T → String → Calls T (Replay T)
  replay_found rec row key = do
    result ← resolve_existing_operation false rec row key
    done (found result)

  -- `if (row.status === "not_delivered") return { found: false, accountId: row.accountId };`
  unfoldable pub replay_retryable :
      Calls T (Replay T) → SendOperationStatus → String → Calls T (Replay T)
  replay_retryable otherwise not_delivered account_id = done (not_found (some account_id))
  replay_retryable otherwise _ account_id = otherwise

  unfoldable pub replay_final : Reconcile T → String → SendOperation T → Calls T (Replay T)
  replay_final rec key row =
      replay_retryable (replay_found rec row key) row.status row.identity.account_id

  -- `if (row.status === "submitting")`
  unfoldable pub replay_submitting :
      Calls T (Replay T) → Calls T (Replay T) → SendOperationStatus → Calls T (Replay T)
  replay_submitting refreshed otherwise submitting = refreshed
  replay_submitting refreshed otherwise _ = otherwise

  unfoldable pub replay_row : Reconcile T → String → SendOperation T → Calls T (Replay T)
  replay_row rec key row =
      replay_submitting (refresh key >>= replay_final rec key) (replay_final rec key row) row.status

  unfoldable pub replay_existing_row :
      Reconcile T → String → String → String → Option (SendOperation T) → Calls T (Replay T)
  replay_existing_row rec key action request_hash none = done (not_found none)
  replay_existing_row rec key action request_hash (some row) =
      conflict_if (not (same_intent row.identity action request_hash)) >> replay_row rec key row

  unfoldable pub replay_send_operation : Reconcile T → String → String → String → Calls T (Replay T)
  replay_send_operation rec operation_key action request_hash = do
    assert_operation_key operation_key
    existing ← get operation_key
    replay_existing_row rec operation_key action request_hash existing
