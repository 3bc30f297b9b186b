-- ===== src/SendOperations.antt =====
-- apps/api/src/send-operations.ts. An operation is a tree of its calls to the store, the provider
-- and the host: each call holds what the code does with every answer, a thrown error included. A
-- theorem about the tree is one about every store, provider and interleaving.
pub mod Flow
pub mod Phases
pub mod Send
pub mod Drafts
pub mod Claims
pub mod Concurrency
pub mod Tests
use Prim.Native.String.{String}
use supamail.Common.{
  ℕ, Bool, true, false, ◌&&◌, not, Option, none, some, List, length, leb, Outcome, ok, throw,
}
use text.Mathlib.Text.{◌==◌}
use supamail.Common.Text.{codes, is_blank}

pub data SendOperationStatus : Type 0 where
  submitting succeeded not_delivered unknown : SendOperationStatus

pub data SendOperationCode : Type 0 where
  idempotency_required idempotency_conflict operation_in_progress delivery_unknown :
      SendOperationCode

pub data SmtpDeliveryOutcome : Type 0 where
  smtp_not_delivered smtp_unknown : SmtpDeliveryOutcome

-- What is thrown: the error classes that the code tells apart, and any other error with its name
-- and its text `outcome`, if it has one.
pub data SendError : Type 0 where
  operation_error : SendOperationCode → SendError
  smtp_delivery_error : SmtpDeliveryOutcome → SendError
  abort_error account_busy_error host_validation_error invalid_input_error : SendError
  no_recipients_error not_found_error : SendError
  other_error : String → Option String → SendError

pub record SendOperationIdentity : Type 0 where
  pub operation_key : String
  pub action : String
  pub account_id : String
  pub request_hash : String
  pub rfc_message_id : Option String

pub record StoredSendError : Type 0 where
  pub name : String
  pub outcome : Option String

pub record SendOperation (T : Type 0) : Type 0 where
  pub identity : SendOperationIdentity
  pub status : SendOperationStatus
  pub result : Option T
  pub error : Option StoredSendError

pub data SendTransition : Type 0 where
  claimed replayed reconciled provider_started provider_accepted : SendTransition
  provider_not_delivered provider_unknown : SendTransition

-- A call, with the continuation for its answer.
pub data Calls (T : Type 0) (A : Type 0) : Type 0 where
  done : A → Calls T A
  raise : SendError → Calls T A
  store_get : String → (Outcome SendError (Option (SendOperation T)) → Calls T A) → Calls T A
  store_start :
      SendOperationIdentity → (Outcome SendError (Bool × SendOperation T) → Calls T A) → Calls T A
  store_refresh : String → (Outcome SendError (SendOperation T) → Calls T A) → Calls T A
  store_finish :
      String
      → SendOperationStatus
      → Option T
      → Option StoredSendError
      → (Outcome SendError (Option (SendOperation T)) → Calls T A)
      → Calls T A
  reconcile_call : SendOperationIdentity → (Outcome SendError (Option T) → Calls T A) → Calls T A
  execute_call : (Outcome SendError T → Calls T A) → Calls T A
  transition_call : SendTransition → (Outcome SendError (Unit {0}) → Calls T A) → Calls T A

-- `isValidIdempotencyKey` for a text; the length counts code points.
unfoldable pub is_valid_idempotency_key : String → Bool
is_valid_idempotency_key key = not (is_blank (codes key)) && leb (length (codes key)) 200

-- Equality of the nullable Message-ID.
unfoldable pub same_text : Option String → Option String → Bool
same_text none none = true
same_text (some a) (some b) = a == b
same_text _ _ = false

unfoldable pub same_send_operation : SendOperationIdentity → SendOperationIdentity → Bool
same_send_operation row input =
    row.action == input.action
    && row.account_id == input.account_id
    && row.request_hash == input.request_hash
    && same_text row.rfc_message_id input.rfc_message_id

unfoldable pub same_intent : SendOperationIdentity → String → String → Bool
same_intent row action request_hash = row.action == action && row.request_hash == request_hash

-- The provider proved that it did not accept the message, or was never asked.
unfoldable pub safe_failure : SendError → Bool
safe_failure (smtp_delivery_error smtp_not_delivered) = true
safe_failure (smtp_delivery_error smtp_unknown) = false
safe_failure (operation_error code) = false
safe_failure (other_error name outcome) = false
safe_failure _ = true

unfoldable pub stored_error : SendError → StoredSendError
stored_error (operation_error code) = record { name = "SendOperationError"; outcome = none }
stored_error (smtp_delivery_error smtp_not_delivered) = record {
  name = "SmtpDeliveryError";
  outcome = some "not_delivered";
}
stored_error (smtp_delivery_error smtp_unknown) = record {
  name = "SmtpDeliveryError";
  outcome = some "unknown";
}
stored_error abort_error = record { name = "AbortError"; outcome = none }
stored_error account_busy_error = record { name = "AccountBusyError"; outcome = none }
stored_error host_validation_error = record { name = "HostValidationError"; outcome = none }
stored_error invalid_input_error = record { name = "InvalidInputError"; outcome = none }
stored_error no_recipients_error = record { name = "NoRecipientsError"; outcome = none }
stored_error not_found_error = record { name = "NotFoundError"; outcome = none }
stored_error (other_error name outcome) = record { name = name; outcome = outcome }
