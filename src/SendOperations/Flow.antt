-- ===== src/SendOperations/Flow.antt =====
-- Sequencing of calls: `await`, `try`, and the single calls.
use Prim.Native.String.{String}
use supamail.Common.{Bool, Option, Outcome, ok, throw}
use supamail.SendOperations.{
  SendOperationStatus, SendError, SendOperationIdentity, StoredSendError, SendOperation,
  SendTransition, Calls, done, raise, store_get, store_start, store_refresh, store_finish,
  reconcile_call, execute_call, transition_call,
}

infixl 5 ◌>>=◌ ◌>>◌
abbrev pub ◌>>=◌ : {T A B : Type 0} → Calls T A → (A → Calls T B) → Calls T B
done a >>= f = f a
raise e >>= f = raise e
store_get key k >>= f = store_get key (λ r. k r >>= f)
store_start op k >>= f = store_start op (λ r. k r >>= f)
store_refresh key k >>= f = store_refresh key (λ r. k r >>= f)
store_finish key st res err k >>= f = store_finish key st res err (λ r. k r >>= f)
reconcile_call row k >>= f = reconcile_call row (λ r. k r >>= f)
execute_call k >>= f = execute_call (λ r. k r >>= f)
transition_call stage k >>= f = transition_call stage (λ r. k r >>= f)

abbrev pub ◌>>◌ : {T A B : Type 0} → Calls T A → Calls T B → Calls T B
m >> k = m >>= λ _. k

-- `try { m } catch (error)`: the outcome of `m` as a value.
abbrev pub attempt : {T A : Type 0} → Calls T A → Calls T (Outcome SendError A)
attempt (done a) = done (ok a)
attempt (raise e) = done (throw e)
attempt (store_get key k) = store_get key (λ r. attempt (k r))
attempt (store_start op k) = store_start op (λ r. attempt (k r))
attempt (store_refresh key k) = store_refresh key (λ r. attempt (k r))
attempt (store_finish key st res err k) = store_finish key st res err (λ r. attempt (k r))
attempt (reconcile_call row k) = reconcile_call row (λ r. attempt (k r))
attempt (execute_call k) = execute_call (λ r. attempt (k r))
attempt (transition_call stage k) = transition_call stage (λ r. attempt (k r))

-- A rejected promise throws where it is awaited.
abbrev pub await : {T A : Type 0} → Outcome SendError A → Calls T A
await (ok a) = done a
await (throw e) = raise e

module _ {T : Type 0} where
  abbrev pub get : String → Calls T (Option (SendOperation T))
  get key = store_get key await

  abbrev pub start : SendOperationIdentity → Calls T (Bool × SendOperation T)
  start op = store_start op await

  abbrev pub refresh : String → Calls T (SendOperation T)
  refresh key = store_refresh key await

  abbrev pub finish :
      String
      → SendOperationStatus
      → Option T
      → Option StoredSendError
      → Calls T (Option (SendOperation T))
  finish key st res err = store_finish key st res err await

  abbrev pub reconcile : SendOperationIdentity → Calls T (Option T)
  reconcile row = reconcile_call row await

  abbrev pub execute : Calls T T
  execute = execute_call await

  abbrev pub transition : SendTransition → Calls T (Unit {0})
  transition stage = transition_call stage await
