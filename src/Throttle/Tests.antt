-- ===== src/Throttle/Tests.antt =====
-- Runs of the throttle, and its theorems at these inputs.
use supamail.Common.{ℕ, ◌+◌, ◌-◌, ◌*◌, ◌≡◌, ◌≤◌, refl, false, List, [], ◌∷◌, arith}
use supamail.Throttle.{ImapThrottle, create, refill, wait_ms, round, Round, Acquired, acquire, run}
use supamail.Throttle.Rate.{run-le, acquire-granted}

ready : Unit {0}
unfolding refill wait_ms round acquire run
ready = tt

abbrev times : List ℕ
times = 1000 ∷ 1001 ∷ 1002 ∷ 31002 ∷ 31003 ∷ 900 ∷ []

three_tokens : (run 2 times (create 2 1000)).0 ≡ 3
unfolding ready
three_tokens = refl

run-le_example : (run 2 times (create 2 1000)).0 * 60000 ≤ 2 * 60000 + (31003 - 1000) * 2
run-le_example = run-le 2 1000 31003 times (omega arith) (omega arith)

abbrev empty : ImapThrottle
empty = record { tokens = 0; last_refill = 1000 }

abbrev at : ℕ → Round
at now = record { aborted = false; now = now; wait_aborted = false }

one_wait : wait_ms 7 ≡ 8572
unfolding ready
one_wait = refl

acquire-granted_example : (acquire 7 (at 1000 ∷ at 9572 ∷ []) empty).0 ≡ Acquired.granted
unfolding ready
acquire-granted_example =
    acquire-granted 7 (at 1000) (at 9572) [] empty (omega arith) refl refl refl (omega arith)
      (omega arith)
