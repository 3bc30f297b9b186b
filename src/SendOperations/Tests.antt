-- ===== src/SendOperations/Tests.antt =====
-- Runs of `runSendOperation` and `replaySendOperation`, and their theorems at these inputs.
use supamail.Common.{ℕ, ◌≡◌, refl, ◌≤◌, true, false, Option, none, some, [], ◌∷◌, ok}
use supamail.SendOperations.{
  SendOperationIdentity, submitting, SendOperation, Calls, done, store_get, store_start,
  store_finish, execute_call, is_valid_idempotency_key, same_send_operation, same_text,
  safe_failure,
}
use supamail.SendOperations.Phases.{idle, accepted, Runs}
use supamail.SendOperations.Send.{finish_succeeded, replay_send_operation}
use supamail.SendOperations.Send.Run.{
  settle, submit, start_and_submit, recorded_or, early_lookup, lookup_first, after_lookup,
  run_send_operation,
}
use supamail.Common.{throw}
use supamail.SendOperations.{abort_error}
use supamail.SendOperations.Drafts.{
  Answers, drive, Ends, draft_save_action, recorded_result, save_draft, run_draft_save_operation,
  run_draft_save_operation_lem,
}
use supamail.SendOperations.Send.Laws.{replay_send_operation-Runs, EndsReleased}
use supamail.SendOperations.Claims.{run_send_operation-Runs}
use supamail.SendOperations.Claims.Parts.{host_lookup, Returned, Threw}
use supamail.Common.Text.{is_blank}
use supamail.SendOperations.Phases.{released}
use supamail.SendOperations.Concurrency.{
  claimable, Attempt, Reached, initially, arrives, acts, here, reads, is_granted, submits,
  deliveries,
}
use supamail.SendOperations.Concurrency.Safety.{Reached-deliveries, Reached-claimable}

abbrev welcome : SendOperationIdentity
welcome = record {
  operation_key = "k";
  action = "send_email";
  account_id = "a";
  request_hash = "h";
  rfc_message_id = none;
}

abbrev saving : SendOperation ℕ
saving = record {
  identity = record welcome { action = draft_save_action };
  status = submitting;
  result = none;
  error = none;
}

abbrev row : SendOperation ℕ
row = record { identity = welcome; status = submitting; result = none; error = none }

ready : Unit {0}
unfolding is_blank is_valid_idempotency_key same_send_operation same_text safe_failure
    finish_succeeded settle submit start_and_submit recorded_or early_lookup lookup_first
    after_lookup run_send_operation
ready = tt

-- The calls after the answers that a store without the row gives, up to the outcome of `finish`.
abbrev answered : Calls ℕ (Option ℕ) → Option (Option ℕ)
answered (store_get key k) = elim (k (ok none)) [
  | store_start op k ↦ elim (k (ok (true, row))) [
    | execute_call k ↦ elim (k (ok 7)) [
      | store_finish key st res err k ↦ elim (k (ok none)) [ done r ↦ some r | _ ↦ none ]
      | _ ↦ none
    ]
    | _ ↦ none
  ]
  | _ ↦ none
]
answered _ = none

sent : answered (run_send_operation false (host_lookup false) welcome) ≡ some (some 7)
unfolding ready
sent = refl

run_send_operation-Runs_example :
    Runs Returned Threw idle (run_send_operation {T = ℕ} true (host_lookup true) welcome)
run_send_operation-Runs_example = run_send_operation-Runs true true welcome

replay_send_operation-Runs_example :
    Runs EndsReleased EndsReleased released
      (replay_send_operation {T = ℕ} (host_lookup true) "k" "send_email" "h")
replay_send_operation-Runs_example = replay_send_operation-Runs true "k" "send_email" "h"

-- An attempt that has been granted the claim and whose submission was accepted.
abbrev after_accept : Calls ℕ (Option ℕ) → Calls ℕ (Option ℕ)
after_accept (store_get key k) = elim (k (ok none)) [
  | store_start op k ↦ elim (k (ok (true, row))) [ execute_call k ↦ k (ok 7) | m ↦ m ]
  | m ↦ m
]
after_accept m = m

abbrev sender : Attempt ℕ
sender = record {
  phase = accepted;
  delivered = 1;
  calls = after_accept (run_send_operation false (host_lookup false) welcome);
}

one_accepted : Reached (some submitting) (sender ∷ [])
unfolding ready
one_accepted =
    acts
      (acts (acts (arrives false false welcome initially) (here (reads (ok none))))
        (here (is_granted row refl)))
      (here (submits (ok 7)))

Reached-deliveries_example : deliveries (sender ∷ []) ≤ 1
Reached-deliveries_example = Reached-deliveries one_accepted

Reached-claimable_example : claimable (some submitting) ≡ false
Reached-claimable_example = Reached-claimable one_accepted refl

-- The save answers 9, and the ledger cannot be written.
abbrev answers : Answers ℕ
answers = record {
  to_get = ok none;
  to_start = ok (true, saving);
  to_refresh = ok saving;
  to_finish = throw abort_error;
  to_reconcile = ok none;
  to_execute = ok 9;
  to_transition = ok tt;
}

saved : (drive answers (run_draft_save_operation "k" "a" "h")).outcome ≡ ok 9
unfolding ready run_draft_save_operation save_draft recorded_result
saved = refl

run_draft_save_operation_lem_example :
    Ends answers "k" none (drive answers (run_draft_save_operation "k" "a" "h"))
unfolding ready recorded_result
run_draft_save_operation_lem_example =
    run_draft_save_operation_lem answers "k" "a" "h" true saving refl refl refl
