-- ===== src/SendOperations/Phases.antt =====
-- What an attempt may do, by how far it has come: it submits only under a claim of its own, and it
-- gives the claim back only after a failure that proves non-delivery.
use supamail.Common.{◌≡◌, Bool, true, false, Option, Outcome, ok, throw, if◌then◌else◌}
use Prim.Native.String.{String}
use supamail.SendOperations.{
  SendOperationIdentity, StoredSendError, SendTransition, SendOperationStatus, not_delivered,
  SendError, SendOperation, Calls, done, raise, store_get, store_start, store_refresh, store_finish,
  reconcile_call, execute_call, transition_call, smtp_delivery_error, smtp_unknown, other_error,
  operation_error,
}
use supamail.SendOperations.Flow.{◌>>=◌}

-- `idle`: no claim. `claiming`: the store has granted the claim. `accepted`: the provider took the
-- message. `uncertain`: it may have. `releasable`: it did not. `released`: the claim is given back.
pub data Phase : Type 0 where
  idle claiming accepted uncertain releasable released : Phase

abbrev pub after_start : {T : Type 0} → Outcome SendError (Bool × SendOperation T) → Phase
after_start (ok (true, row)) = claiming
after_start (ok (false, row)) = idle
after_start (throw e) = idle

-- The errors of a submission after which the provider may hold the message: an SMTP outcome that is
-- unknown, and every error that the provider and the host do not type.
abbrev pub may_have_accepted : SendError → Bool
may_have_accepted (smtp_delivery_error smtp_unknown) = true
may_have_accepted (other_error name outcome) = true
may_have_accepted (operation_error code) = true
may_have_accepted _ = false

abbrev pub after_execute : {T : Type 0} → Outcome SendError T → Phase
after_execute (ok result) = accepted
after_execute (throw e) = if may_have_accepted e then uncertain else releasable

abbrev pub after_finish : SendOperationStatus → Phase → Phase
after_finish not_delivered phase = released
after_finish _ phase = phase

-- `Runs Q E phase m`: from this phase the calls keep the rules, whatever the answers; a result
-- satisfies `Q` and a thrown error `E`, with the phase that is then reached.
pub data Runs {T A : Type 0} (Q : Phase → A → Type 0) (E : Phase → SendError → Type 0)
    : Phase → Calls T A → Type 0 where
  returns : {p : Phase} {a : A} → Q p a → Runs Q E p (done a)
  raises : {p : Phase} {e : SendError} → E p e → Runs Q E p (raise e)
  gets :
      {p : Phase} {key : String} {k : Outcome SendError (Option (SendOperation T)) → Calls T A}
      → ((r : Outcome SendError (Option (SendOperation T))) → Runs Q E p (k r))
      → Runs Q E p (store_get key k)
  starts :
      {op : SendOperationIdentity} {k : Outcome SendError (Bool × SendOperation T) → Calls T A}
      → ((r : Outcome SendError (Bool × SendOperation T)) → Runs Q E (after_start r) (k r))
      → Runs Q E idle (store_start op k)
  refreshes :
      {p : Phase} {key : String} {k : Outcome SendError (SendOperation T) → Calls T A}
      → ((r : Outcome SendError (SendOperation T)) → Runs Q E p (k r))
      → Runs Q E p (store_refresh key k)
  finishes :
      {p : Phase} {key : String} {st : SendOperationStatus} {res : Option T}
      {err : Option StoredSendError} {k : Outcome SendError (Option (SendOperation T)) → Calls T A}
      → (st ≡ not_delivered → p ≡ releasable)
      → ((r : Outcome SendError (Option (SendOperation T))) → Runs Q E (after_finish st p) (k r))
      → Runs Q E p (store_finish key st res err k)
  reconciles :
      {p : Phase} {row : SendOperationIdentity} {k : Outcome SendError (Option T) → Calls T A}
      → ((r : Outcome SendError (Option T)) → Runs Q E p (k r))
      → Runs Q E p (reconcile_call row k)
  executes :
      {k : Outcome SendError T → Calls T A}
      → ((r : Outcome SendError T) → Runs Q E (after_execute r) (k r))
      → Runs Q E claiming (execute_call k)
  notifies :
      {p : Phase} {stage : SendTransition} {k : Outcome SendError (Unit {0}) → Calls T A}
      → ((r : Outcome SendError (Unit {0})) → Runs Q E p (k r))
      → Runs Q E p (transition_call stage k)

-- The cases of an answer.
pub answers {ℓ} :
    {A : Type 0} (M : Outcome SendError A → Type ℓ)
    → ((a : A) → M (ok a))
    → ((e : SendError) → M (throw e))
    → (r : Outcome SendError A) → M r
answers M h k (ok a) = h a
answers M h k (throw e) = k e

module _ {T A B : Type 0} {Q : Phase → A → Type 0} {R : Phase → B → Type 0}
    {E : Phase → SendError → Type 0} {f : A → Calls T B} where
  pub Runs-bind :
      {p : Phase} {m : Calls T A}
      → ((q : Phase) (a : A) → Q q a → Runs R E q (f a))
      → Runs Q E p m
      → Runs R E p (m >>= f)
  Runs-bind h (returns x) = h _ _ x
  Runs-bind h (raises x) = raises x
  Runs-bind h (gets k) = gets (λ r. Runs-bind h (k r))
  Runs-bind h (starts k) = starts (λ r. Runs-bind h (k r))
  Runs-bind h (refreshes k) = refreshes (λ r. Runs-bind h (k r))
  Runs-bind h (finishes x k) = finishes x (λ r. Runs-bind h (k r))
  Runs-bind h (reconciles k) = reconciles (λ r. Runs-bind h (k r))
  Runs-bind h (executes k) = executes (λ r. Runs-bind h (k r))
  Runs-bind h (notifies k) = notifies (λ r. Runs-bind h (k r))
