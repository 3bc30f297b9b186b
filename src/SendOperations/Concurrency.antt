-- ===== src/SendOperations/Concurrency.antt =====
-- Interleaved attempts of `runSendOperation` for one key, over a store that keeps the documented
-- contract of `SendOperationStore`: a claim is granted only for an absent or `not_delivered` row, an
-- expired `submitting` row becomes `unknown`, and `finish` preserves a `succeeded` row. Whatever
-- else the store answers is left open: a read may be stale, a write may fail before or after it
-- commits.
use supamail.Common.{
  ◌≡◌, ◌+◌, ℕ, Bool, true, false, Option, none, some, List, [], ◌∷◌, ◌++◌, Outcome, ok, throw,
  if◌then◌else◌,
}
use supamail.SendOperations.{
  SendOperationStatus, submitting, succeeded, not_delivered, unknown, SendError,
  SendOperationIdentity, SendOperation, Calls, store_get, store_start, store_refresh, store_finish,
  reconcile_call, execute_call, transition_call,
}
pub mod Safety
use supamail.SendOperations.Phases.{
  Phase, idle, claiming, accepted, uncertain, releasable, released, after_start, after_execute,
  after_finish, may_have_accepted,
}
use supamail.SendOperations.Claims.Parts.{host_lookup}
use supamail.SendOperations.Send.Run.{run_send_operation}

-- The row of the key, by its status.
abbrev pub Ledger : Type 0
Ledger = Option SendOperationStatus

abbrev pub claimable : Ledger → Bool
claimable none = true
claimable (some not_delivered) = true
claimable (some _) = false

abbrev pub finished : SendOperationStatus → Ledger → Ledger
finished st none = none
finished st (some succeeded) = some succeeded
finished st (some _) = some st

-- An attempt, with the number of its submissions so far that the provider accepted or may have.
pub record Attempt (T : Type 0) : Type 0 where
  pub phase : Phase
  pub delivered : ℕ
  pub calls : Calls T (Option T)

-- Whether the provider accepted the message, or may have, by the answer of `execute`.
abbrev pub delivery : {T : Type 0} → Outcome SendError T → ℕ
delivery (ok result) = 1
delivery (throw e) = if may_have_accepted e then 1 else 0

-- A write that fails may have been applied.
pub data Applied : Ledger → Ledger → Ledger → Type 0 where
  lost : {before after : Ledger} → Applied before after before
  kept : {before after : Ledger} → Applied before after after

-- One call of an attempt, with the ledger before and after it.
pub data Acts {T : Type 0} : Ledger → Attempt T → Ledger → Attempt T → Type 0 where
  reads :
      {l : Ledger} {p : Phase} {n : ℕ} {key : _}
      {k : Outcome SendError (Option (SendOperation T)) → Calls T (Option T)}
      (r : Outcome SendError (Option (SendOperation T)))
      → Acts l
          (record { phase = p; delivered = n; calls = store_get key k })
          l
          (record { phase = p; delivered = n; calls = k r })
  refreshes :
      {l : Ledger} {p : Phase} {n : ℕ} {key : _}
      {k : Outcome SendError (SendOperation T) → Calls T (Option T)}
      (r : Outcome SendError (SendOperation T))
      → Acts l
          (record { phase = p; delivered = n; calls = store_refresh key k })
          l
          (record { phase = p; delivered = n; calls = k r })
  looks_up :
      {l : Ledger} {p : Phase} {n : ℕ} {row : SendOperationIdentity}
      {k : Outcome SendError (Option T) → Calls T (Option T)} (r : Outcome SendError (Option T))
      → Acts l
          (record { phase = p; delivered = n; calls = reconcile_call row k })
          l
          (record { phase = p; delivered = n; calls = k r })
  notifies :
      {l : Ledger} {p : Phase} {n : ℕ} {stage : _}
      {k : Outcome SendError (Unit {0}) → Calls T (Option T)} (r : Outcome SendError (Unit {0}))
      → Acts l
          (record { phase = p; delivered = n; calls = transition_call stage k })
          l
          (record { phase = p; delivered = n; calls = k r })
  is_granted :
      {l : Ledger} {p : Phase} {n : ℕ} {op : SendOperationIdentity}
      {k : Outcome SendError (Bool × SendOperation T) → Calls T (Option T)} (row : SendOperation T)
      → claimable l ≡ true
      → Acts l
          (record { phase = p; delivered = n; calls = store_start op k })
          (some submitting)
          (record {
            phase = after_start {T = T} (ok (true, row));
            delivered = n;
            calls = k (ok (true, row));
          })
  is_denied :
      {l : Ledger} {p : Phase} {n : ℕ} {op : SendOperationIdentity}
      {k : Outcome SendError (Bool × SendOperation T) → Calls T (Option T)} (row : SendOperation T)
      → Acts l
          (record { phase = p; delivered = n; calls = store_start op k })
          l
          (record {
            phase = after_start {T = T} (ok (false, row));
            delivered = n;
            calls = k (ok (false, row));
          })
  start_fails :
      {l l' : Ledger} {p : Phase} {n : ℕ} {op : SendOperationIdentity}
      {k : Outcome SendError (Bool × SendOperation T) → Calls T (Option T)} (e : SendError)
      → Applied l (some submitting) l'
      → Acts l
          (record { phase = p; delivered = n; calls = store_start op k })
          l'
          (record { phase = after_start {T = T} (throw e); delivered = n; calls = k (throw e) })
  finishes :
      {l : Ledger} {p : Phase} {n : ℕ} {key : _} {st : SendOperationStatus} {res : Option T}
      {err : _} {k : Outcome SendError (Option (SendOperation T)) → Calls T (Option T)}
      (row : Option (SendOperation T))
      → Acts l
          (record { phase = p; delivered = n; calls = store_finish key st res err k })
          (finished st l)
          (record { phase = after_finish st p; delivered = n; calls = k (ok row) })
  finish_fails :
      {l l' : Ledger} {p : Phase} {n : ℕ} {key : _} {st : SendOperationStatus} {res : Option T}
      {err : _} {k : Outcome SendError (Option (SendOperation T)) → Calls T (Option T)}
      (e : SendError)
      → Applied l (finished st l) l'
      → Acts l
          (record { phase = p; delivered = n; calls = store_finish key st res err k })
          l'
          (record { phase = after_finish st p; delivered = n; calls = k (throw e) })
  submits :
      {l : Ledger} {p : Phase} {n : ℕ} {k : Outcome SendError T → Calls T (Option T)}
      (r : Outcome SendError T)
      → Acts l
          (record { phase = p; delivered = n; calls = execute_call k })
          l
          (record { phase = after_execute r; delivered = n + delivery r; calls = k r })

-- One of the attempts acts.
pub data OneActs {T : Type 0} : Ledger → List (Attempt T) → Ledger → List (Attempt T) → Type 0 where
  here :
      {l l' : Ledger} {a a' : Attempt T} {xs : List (Attempt T)}
      → Acts l a l' a'
      → OneActs l (a ∷ xs) l' (a' ∷ xs)
  there :
      {l l' : Ledger} {a : Attempt T} {xs xs' : List (Attempt T)}
      → OneActs l xs l' xs'
      → OneActs l (a ∷ xs) l' (a ∷ xs')

-- What is reached from a key without a row: attempts arrive, with their own request, act in any
-- order, and claims expire.
pub data Reached {T : Type 0} : Ledger → List (Attempt T) → Type 0 where
  initially : Reached none []
  arrives :
      {l : Ledger} {xs : List (Attempt T)} (on_transition has_lookup : Bool)
      (op : SendOperationIdentity)
      → Reached l xs
      → Reached l (
          record {
            phase = idle;
            delivered = 0;
            calls = run_send_operation on_transition (host_lookup has_lookup) op;
          }
          ∷ xs)
  expires : {xs : List (Attempt T)} → Reached (some submitting) xs → Reached (some unknown) xs
  acts :
      {l l' : Ledger} {xs xs' : List (Attempt T)}
      → Reached l xs
      → OneActs l xs l' xs'
      → Reached l' xs'

-- The submissions of all attempts that the provider accepted, or may have accepted.
abbrev pub deliveries : {T : Type 0} → List (Attempt T) → ℕ
deliveries [] = 0
deliveries (a ∷ xs) = a.delivered + deliveries xs
