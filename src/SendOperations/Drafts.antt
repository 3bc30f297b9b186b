-- ===== src/SendOperations/Drafts.antt =====
-- `replayDraftSaveOperation` and `runDraftSaveOperation`, and how they end under given answers. The
-- request is given by its digest.
use Prim.Native.String.{String}
use supamail.Common.{
  ℕ, suc, ◌≡◌, refl, sym, ap, subst, Bool, true, not, Option, none, some, Outcome, ok, throw,
  if◌then◌else◌,
}
use supamail.SendOperations.{
  SendOperationStatus, succeeded, SendError, SendOperationIdentity, SendOperation, Calls, done,
  raise, store_get, store_start, store_refresh, store_finish, reconcile_call, execute_call,
  transition_call, operation_error, idempotency_required, is_valid_idempotency_key,
  same_send_operation, same_intent,
}
use supamail.SendOperations.Flow.{attempt, await, ◌>>=◌, ◌>>◌, get, start, execute}
use supamail.SendOperations.Send.{conflict_if, assert_operation_key, finish_succeeded, result_or}

abbrev pub draft_save_action : String
draft_save_action = "save_draft"

-- `row.status === "succeeded" && row.result != null`
unfoldable pub recorded_result : {T : Type 0} → SendOperationStatus → Option T → Option T
recorded_result succeeded result = result
recorded_result _ result = none

module _ {T : Type 0} where
  -- `{ found: true, result }` or `{ found: false }`.
  unfoldable pub found_draft : String → Option (SendOperation T) → Calls T (Option T)
  found_draft request_hash none = done none
  found_draft request_hash (some row) =
      conflict_if (not (same_intent row.identity draft_save_action request_hash))
      >> done (recorded_result row.status row.result)

  unfoldable pub replay_draft_save_operation : String → String → Calls T (Option T)
  replay_draft_save_operation operation_key request_hash = do
    assert_operation_key operation_key
    row ← get operation_key
    found_draft request_hash row

  -- The save itself, for an operation without a recorded result.
  unfoldable pub save_draft : String → Option T → Calls T T
  save_draft operation_key (some result) = done result
  save_draft operation_key none = do result ← execute; finish_succeeded operation_key result

  unfoldable pub run_draft_save_operation : String → String → String → Calls T T
  run_draft_save_operation operation_key account_id request_hash = do
    assert_operation_key operation_key
    let operation : SendOperationIdentity = record {
      operation_key = operation_key;
      action = draft_save_action;
      account_id = account_id;
      request_hash = request_hash;
      rfc_message_id = none;
    }
    (_, row) ← start operation
    conflict_if (not (same_send_operation row.identity operation))
    save_draft operation_key (recorded_result row.status row.result)

some-injective : {A : Type 0} {a b : A} → ◌≡◌ {A = Option A} (some a) (some b) → a ≡ b
some-injective e = cc

-- One answer to each kind of call.
pub record Answers (T : Type 0) : Type 0 where
  pub to_get : Outcome SendError (Option (SendOperation T))
  pub to_start : Outcome SendError (Bool × SendOperation T)
  pub to_refresh : Outcome SendError (SendOperation T)
  pub to_finish : Outcome SendError (Option (SendOperation T))
  pub to_reconcile : Outcome SendError (Option T)
  pub to_execute : Outcome SendError T
  pub to_transition : Outcome SendError (Unit {0})

-- How often a run submits and writes, and how it ends.
pub record Ran (A : Type 0) : Type 0 where
  pub executions : ℕ
  pub finishes : ℕ
  pub outcome : Outcome SendError A

abbrev pub drive : {T A : Type 0} → Answers T → Calls T A → Ran A
drive a (done x) = record { executions = 0; finishes = 0; outcome = ok x }
drive a (raise e) = record { executions = 0; finishes = 0; outcome = throw e }
drive a (store_get key k) = drive a (k a.to_get)
drive a (store_start op k) = drive a (k a.to_start)
drive a (store_refresh key k) = drive a (k a.to_refresh)
drive a (store_finish key st res err k) =
    let rest = drive a (k a.to_finish) in record rest { finishes = suc rest.finishes }
drive a (reconcile_call row k) = drive a (k a.to_reconcile)
drive a (execute_call k) =
    let rest = drive a (k a.to_execute) in record rest { executions = suc rest.executions }
drive a (transition_call stage k) = drive a (k a.to_transition)

module _ {T : Type 0} (a : Answers T) (key : String) where
  -- How the save ends: recorded, saved, or failed.
  abbrev pub Ends : Option T → Ran T → Type 0
  Ends recorded ran =
      ((t : T)
        → recorded ≡ some t
        → (ran.executions ≡ 0) × (ran.finishes ≡ 0) × (ran.outcome ≡ ok t))
      × ((t : T)
          → recorded ≡ none
          → a.to_execute ≡ ok t
          → (ran.executions ≡ 1) × (ran.finishes ≡ 1) × ((u : T) × (ran.outcome ≡ ok u)))
      × ((e : SendError)
          → recorded ≡ none
          → a.to_execute ≡ throw e
          → (ran.executions ≡ 1) × (ran.finishes ≡ 0) × (ran.outcome ≡ throw e))

  after_finish : T → Outcome SendError (Option (SendOperation T)) → Ran T
  after_finish t answer = drive a (
      attempt (await answer) >>= λ finished. elim finished [
        | ok row ↦ done (result_or row t)
        | throw _ ↦ done t
      ])

  after_finish-ok :
      (t : T) (answer : Outcome SendError (Option (SendOperation T)))
      → ((after_finish t answer).executions ≡ 0)
        × ((after_finish t answer).finishes ≡ 0)
        × ((u : T) × ((after_finish t answer).outcome ≡ ok u))
  unfolding after_finish
  after_finish-ok t (ok row) = (refl, refl, (result_or row t, refl))
  after_finish-ok t (throw e) = (refl, refl, (t, refl))

  after_execute : Outcome SendError T → Ran T
  unfolding finish_succeeded
  after_execute answer =
      let rest = drive a (await answer >>= finish_succeeded key) in
      record rest { executions = suc rest.executions }

  save_draft-Ends : (recorded : Option T) → Ends recorded (drive a (save_draft key recorded))
  unfolding save_draft finish_succeeded after_execute after_finish
  save_draft-Ends (some r) =
      ((λ t e. (refl, refl, ap ok (some-injective e))), (λ t e x. cc), (λ x e y. cc))
  save_draft-Ends none = (
    (λ t e. cc),
    (λ t _ e.
        subst
          (λ x.
            ((after_execute x).executions ≡ 1)
            × ((after_execute x).finishes ≡ 1)
            × ((u : T) × ((after_execute x).outcome ≡ ok u)))
          (sym e) (let (n, m, out) = after_finish-ok t a.to_finish in (ap suc n, ap suc m, out))),
    (λ x _ e.
        subst
          (λ y.
            ((after_execute y).executions ≡ 1)
            × ((after_execute y).finishes ≡ 0)
            × ((after_execute y).outcome ≡ throw x))
          (sym e) (refl, refl, refl)),
  )

  -- A keyed draft save whose claim call answers with a row of the same operation: with a recorded
  -- result it returns that result and saves nothing; without one it saves exactly once, returns a
  -- result if the save succeeded, also when the ledger cannot be written, and throws the error of the
  -- save, without a write, if it failed.
  pub run_draft_save_operation_lem :
      (account_id request_hash : String) (granted : Bool) (row : SendOperation T)
      → is_valid_idempotency_key key ≡ true
      → a.to_start ≡ ok (granted, row)
      → same_send_operation row.identity (record {
        operation_key = key;
        action = draft_save_action;
        account_id = account_id;
        request_hash = request_hash;
        rfc_message_id = none;
      })
        ≡ true
      → Ends
          (recorded_result row.status row.result)
          (drive a (run_draft_save_operation key account_id request_hash))
  unfolding run_draft_save_operation
  run_draft_save_operation_lem account_id request_hash granted row valid answer same =
      subst
        (λ v. Ends recorded (
          drive a (
            (if v then done tt else raise (operation_error idempotency_required))
            >> (start operation >>= rest))))
        (sym valid)
        (subst (λ x. Ends recorded (drive a (await x >>= rest))) (sym answer)
          (subst (λ s. Ends recorded (drive a (conflict_if (not s) >> save_draft key recorded)))
            (sym same) (save_draft-Ends recorded)))
    where
      recorded : Option T
      recorded = recorded_result row.status row.result

      operation : SendOperationIdentity
      operation = record {
        operation_key = key;
        action = draft_save_action;
        account_id = account_id;
        request_hash = request_hash;
        rfc_message_id = none;
      }

      rest : Bool × SendOperation T → Calls T T
      rest answer =
          conflict_if (not (same_send_operation answer.1.identity operation))
          >> save_draft key (recorded_result answer.1.status answer.1.result)
