-- ===== src/SendOperations/Send/Laws.antt =====
-- `replaySendOperation` against every store and every Sent lookup.
use Prim.Native.String.{String}
use supamail.Common.{◌≡◌, refl, Bool, true, false, not, Option, none, some, if◌then◌else◌}
use supamail.SendOperations.{
  SendOperationStatus, submitting, succeeded, not_delivered, unknown, operation_error,
  idempotency_required, SendOperation, Calls, done, raise, same_intent, is_valid_idempotency_key,
}
use supamail.SendOperations.Flow.{◌>>=◌, ◌>>◌, get}
use supamail.SendOperations.Phases.{
  Phase, released, Runs, returns, raises, gets, refreshes, answers, Runs-bind,
}
use supamail.SendOperations.Claims.Parts.{host_lookup, Runs-resolve_unknown, Runs-resolve_status}
use supamail.SendOperations.Send.{
  Replay, conflict_if, resolve_existing_operation, replay_found, replay_retryable, replay_final,
  replay_submitting, replay_row, replay_existing_row, replay_send_operation,
}

abbrev pub EndsReleased : {A : Type 0} → Phase → A → Type 0
EndsReleased q a = q ≡ released

module _ {T : Type 0} (b : Bool) (key : String) where
  Runs-replay_found :
      (row : SendOperation T)
      → Runs EndsReleased EndsReleased released (replay_found (host_lookup b) row key)
  unfolding replay_found resolve_existing_operation
  Runs-replay_found row =
      Runs-bind {Q = EndsReleased} (λ q r e. returns e)
        (Runs-resolve_status _ row.status row.result refl refl
          (Runs-resolve_unknown false b _ key (λ _. refl) refl))

  Runs-replay_retryable :
      (m : Calls T (Replay T)) (s : SendOperationStatus) (account_id : String)
      → Runs EndsReleased EndsReleased released m
      → Runs EndsReleased EndsReleased released (replay_retryable m s account_id)
  unfolding replay_retryable
  Runs-replay_retryable m not_delivered account_id h = returns refl
  Runs-replay_retryable m submitting account_id h = h
  Runs-replay_retryable m succeeded account_id h = h
  Runs-replay_retryable m unknown account_id h = h

  Runs-replay_final :
      (row : SendOperation T)
      → Runs EndsReleased EndsReleased released (replay_final (host_lookup b) key row)
  unfolding replay_final
  Runs-replay_final row = Runs-replay_retryable _ row.status _ (Runs-replay_found row)

  Runs-replay_submitting :
      (m n : Calls T (Replay T)) (s : SendOperationStatus)
      → Runs EndsReleased EndsReleased released m
      → Runs EndsReleased EndsReleased released n
      → Runs EndsReleased EndsReleased released (replay_submitting m n s)
  unfolding replay_submitting
  Runs-replay_submitting m n submitting h k = h
  Runs-replay_submitting m n not_delivered h k = k
  Runs-replay_submitting m n succeeded h k = k
  Runs-replay_submitting m n unknown h k = k

  Runs-replay_existing_row :
      (action request_hash : String) (row : Option (SendOperation T))
      → Runs EndsReleased EndsReleased released
          (replay_existing_row (host_lookup b) key action request_hash row)
  unfolding replay_existing_row replay_row
  Runs-replay_existing_row action request_hash none = returns refl
  Runs-replay_existing_row action request_hash (some row) =
      elim (not (same_intent row.identity action request_hash))
        as (λ t.
          Runs {T = T} EndsReleased EndsReleased released
            (conflict_if t >> replay_row (host_lookup b) key row)) [
              | true ↦ raises refl
              | false ↦
                  Runs-replay_submitting _ _ row.status
                    (refreshes (answers _ Runs-replay_final (λ e. raises refl)))
                    (Runs-replay_final row)
            ]

  -- Whatever the store and the Sent lookup answer, a replay never asks for a claim, never submits,
  -- and never marks the operation `not_delivered`: none of the three is allowed in the phase
  -- `released`, in which it begins and ends.
  pub replay_send_operation-Runs :
      (action request_hash : String)
      → Runs EndsReleased EndsReleased released
          (replay_send_operation {T = T} (host_lookup b) key action request_hash)
  unfolding replay_send_operation
  replay_send_operation-Runs action request_hash =
      elim (is_valid_idempotency_key key)
        as (λ valid. Runs {T = T} EndsReleased EndsReleased released (
          (if valid then done tt else raise (operation_error idempotency_required))
          >> (get key >>= replay_existing_row (host_lookup b) key action request_hash))) [
            | false ↦ raises refl
            | true ↦
                gets (answers _ (Runs-replay_existing_row action request_hash) (λ e. raises refl))
          ]
