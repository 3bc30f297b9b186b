-- ===== src/SendOperations/Claims/Parts.antt =====
-- What the parts of `runSendOperation` do, from any phase: the notifications, the records of a result
-- and the Sent lookups keep it.
use Prim.Native.String.{String}
use supamail.Common.{◌≡◌, Bool, true, false, Option, none, some, Outcome, ok, throw, if◌then◌else◌}
use supamail.SendOperations.{
  SendOperationStatus, submitting, succeeded, not_delivered, unknown, SendError, operation_error,
  idempotency_conflict, operation_in_progress, delivery_unknown, SendOperationIdentity,
  SendOperation, SendTransition, Calls, done,
}
use supamail.SendOperations.Flow.{◌>>=◌, ◌>>◌, attempt, reconcile}
use supamail.SendOperations.Phases.{
  Phase, answers, returns, raises, finishes, reconciles, notifies, idle, claiming, accepted,
  uncertain, releasable, released, Runs, may_have_accepted,
}
use supamail.SendOperations.Send.{
  Reconcile, notify_transition, conflict_if, has_message_id, finish_succeeded, reconcile_operation,
  recovered_by, record_sent, sent_or_unknown, resolve_unknown, resolve_status,
}
use supamail.SendOperations.Send.Run.{succeeded_or, finished_or, early_lookup}

-- The host gives its Sent lookup, or none.
abbrev pub host_lookup : {T : Type 0} → Bool → Reconcile T
host_lookup true = some reconcile
host_lookup false = none

-- A result after acceptance is there; a result is no sign of an open claim that was submitted.
abbrev pub Returned : {T : Type 0} → Phase → Option T → Type 0
Returned accepted result = ¬ (result ≡ none)
Returned releasable result = ⊥
Returned _ result = Unit {0}

-- An accepted message is never reported as an error, an uncertain one only as `delivery_unknown`,
-- and a claim that is given back with an error that proves non-delivery.
abbrev pub Threw : Phase → SendError → Type 0
Threw idle e = Unit {0}
Threw claiming e = e ≡ operation_error idempotency_conflict
Threw accepted e = ⊥
Threw uncertain e = e ≡ operation_error delivery_unknown
Threw releasable e = ⊥
Threw released e = may_have_accepted e ≡ false

module _ {T A : Type 0} {Q : Phase → A → Type 0} {E : Phase → SendError → Type 0} {p : Phase} where
  pub Runs-notify :
      (on : Bool) (stage : SendTransition) (f : Unit {0} → Calls T A)
      → Runs Q E p (f tt)
      → Runs Q E p (notify_transition on stage >>= f)
  Runs-notify true stage f h = notifies (answers _ (λ _. h) (λ _. h))
  Runs-notify false stage f h = h

  pub Runs-finish_succeeded :
      (key : String) (result : T) (f : T → Calls T A)
      → ((t : T) → Runs Q E p (f t))
      → Runs Q E p (finish_succeeded key result >>= f)
  unfolding finish_succeeded
  Runs-finish_succeeded key result f h = finishes (λ e. cc) (answers _ (λ row. h _) (λ _. h result))

  pub Runs-record_sent :
      (key : String) (o : Option T) (f : Outcome SendError (Option T) → Calls T A)
      → ((o : Outcome SendError (Option T)) → Runs Q E p (f o))
      → Runs Q E p (attempt (record_sent key o) >>= f)
  unfolding record_sent finish_succeeded
  Runs-record_sent key none f h = h (ok none)
  Runs-record_sent key (some result) f h =
      finishes (λ e. cc) (answers _ (λ row. h (ok (some _))) (λ _. h (ok (some result))))

  -- A lookup whose failure is caught.
  pub Runs-reconcile_operation :
      (b : Bool) (row : SendOperationIdentity) (key : String)
      (f : Outcome SendError (Option T) → Calls T A)
      → ((o : Outcome SendError (Option T)) → Runs Q E p (f o))
      → Runs Q E p (attempt (reconcile_operation (host_lookup b) row key) >>= f)
  unfolding reconcile_operation recovered_by
  Runs-reconcile_operation false row key f h = h (ok none)
  Runs-reconcile_operation true row key f h =
      elim (has_message_id row.rfc_message_id)
        as (λ b.
          Runs Q E p (attempt (if b then recovered_by reconcile row key else done none) >>= f)) [
            | false ↦ h (ok none)
            | true ↦ reconciles (answers _ (λ o. Runs-record_sent key o f h) (λ e. h (throw e)))
          ]

  pub Runs-early_lookup :
      (b : Bool) (id : Option String) (row : SendOperationIdentity) (f : Option T → Calls T A)
      → ((o : Option T) → Runs Q E p (f o))
      → ((e : SendError) → E p e)
      → Runs Q E p (early_lookup (host_lookup b) id row >>= f)
  unfolding early_lookup
  Runs-early_lookup false id row f h k = h none
  Runs-early_lookup true id row f h k =
      elim (has_message_id id)
        as (λ has. Runs Q E p ((if has then reconcile row else done none) >>= f)) [
          | false ↦ h none
          | true ↦ reconciles (answers _ h (λ e. raises (k e)))
        ]

module _ {T : Type 0} {Q : Phase → Option T → Type 0} {E : Phase → SendError → Type 0}
    {p : Phase} where
  pub Runs-sent_or_unknown :
      (on : Bool) (o : Outcome SendError (Option T))
      → ((t : T) → Q p (some t))
      → E p (operation_error delivery_unknown)
      → Runs Q E p (sent_or_unknown on o)
  unfolding sent_or_unknown
  Runs-sent_or_unknown true (ok (some t)) h k =
      notifies (answers _ (λ _. returns (h t)) (λ _. returns (h t)))
  Runs-sent_or_unknown false (ok (some t)) h k = returns (h t)
  Runs-sent_or_unknown on (ok none) h k = raises k
  Runs-sent_or_unknown on (throw e) h k = raises k

  pub Runs-resolve_unknown :
      (on b : Bool) (row : SendOperationIdentity) (key : String)
      → ((t : T) → Q p (some t))
      → E p (operation_error delivery_unknown)
      → Runs Q E p (resolve_unknown on (host_lookup b) row key)
  unfolding resolve_unknown
  Runs-resolve_unknown on b row key h k =
      Runs-reconcile_operation b row key _ (λ o. Runs-sent_or_unknown on o h k)

  pub Runs-succeeded_or :
      (m : Calls T (Option T)) (s : SendOperationStatus) (r : Option T)
      → Q p r
      → Runs Q E p m
      → Runs Q E p (succeeded_or m s r)
  unfolding succeeded_or
  Runs-succeeded_or m succeeded r h k = returns h
  Runs-succeeded_or m submitting r h k = k
  Runs-succeeded_or m not_delivered r h k = k
  Runs-succeeded_or m unknown r h k = k

  pub Runs-finished_or :
      (m : Calls T (Option T)) (o : Outcome SendError (Option (SendOperation T)))
      → ((r : Option T) → Q p r)
      → Runs Q E p m
      → Runs Q E p (finished_or m o)
  unfolding finished_or
  Runs-finished_or m (ok (some row)) h k = Runs-succeeded_or m row.status row.result (h _) k
  Runs-finished_or m (ok none) h k = k
  Runs-finished_or m (throw e) h k = k

  pub Runs-conflict_if :
      (t : Bool) (m : Calls T (Option T))
      → E p (operation_error idempotency_conflict)
      → Runs Q E p m
      → Runs Q E p (conflict_if t >> m)
  Runs-conflict_if true m h k = raises h
  Runs-conflict_if false m h k = k

  pub Runs-resolve_status :
      (lookup : Calls T (Option T)) (s : SendOperationStatus) (r : Option T)
      → Q p r
      → E p (operation_error operation_in_progress)
      → Runs Q E p lookup
      → Runs Q E p (resolve_status lookup s r)
  unfolding resolve_status
  Runs-resolve_status lookup succeeded r h k l = returns h
  Runs-resolve_status lookup unknown r h k l = l
  Runs-resolve_status lookup submitting r h k l = raises k
  Runs-resolve_status lookup not_delivered r h k l = raises k
