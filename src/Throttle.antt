-- ===== src/Throttle.antt =====
-- apps/api/src/throttle.ts: the token bucket of ImapThrottle. Times are milliseconds. A token is kept
-- as 60,000 units, so that a millisecond adds `maxCommandsPerMinute` units and no number is rounded,
-- where the code's doubles may round.
pub mod Rate
mod Tests
use supamail.Common.{
  ℕ, ◌+◌, ◌-◌, ◌*◌, ◌/◌, min, Bool, true, false, List, [], ◌∷◌, leb, if◌then◌else◌,
}

abbrev pub units : ℕ
units = 60000

pub record ImapThrottle : Type 0 where
  pub tokens : ℕ
  pub last_refill : ℕ

-- The constructor, at time `now`.
abbrev pub create : ℕ → ℕ → ImapThrottle
create max_commands now = record { tokens = max_commands * units; last_refill = now }

unfoldable pub refill : ℕ → ℕ → ImapThrottle → ImapThrottle
refill max_commands now t = if leb now t.last_refill then t else record {
  tokens = min (max_commands * units) (t.tokens + (now - t.last_refill) * max_commands);
  last_refill = now;
}

-- `Math.ceil(60_000 / this.maxCommandsPerMinute)`
unfoldable pub wait_ms : ℕ → ℕ
wait_ms max_commands = (units + max_commands - 1) / max_commands

-- A round of the loop that is not aborted: whether it took a token.
unfoldable pub round : ℕ → ℕ → ImapThrottle → Bool × ImapThrottle
unfolding refill
round max_commands now t =
    let filled = refill max_commands now t in
    if leb units filled.tokens
    then (true, record filled { tokens = filled.tokens - units })
    else (false, filled)

-- What a round of `acquire` meets: the signal, the clock, and whether the signal ends the wait.
pub record Round : Type 0 where
  pub aborted : Bool
  pub now : ℕ
  pub wait_aborted : Bool

pub data Acquired : Type 0 where
  granted interrupted waiting : Acquired

-- `acquire`, over the rounds that it meets; it waits where they end.
unfoldable pub acquire : ℕ → List Round → ImapThrottle → Acquired × ImapThrottle
acquire max_commands [] t = (Acquired.waiting, t)
acquire max_commands (r ∷ rounds) t =
    let (taken, after) = round max_commands r.now t in
    let rest = acquire max_commands rounds after in
    if r.aborted
    then (Acquired.interrupted, t)
    else if taken
    then (Acquired.granted, after)
    else if r.wait_aborted
    then (Acquired.interrupted, after)
    else rest

-- The tokens taken by rounds at these times, of any calls of `acquire`, in their order.
unfoldable pub run : ℕ → List ℕ → ImapThrottle → ℕ × ImapThrottle
run max_commands [] t = (0, t)
run max_commands (now ∷ times) t =
    let (taken, after) = round max_commands now t in
    let (count, last) = run max_commands times after in ((if taken then 1 else 0) + count, last)
