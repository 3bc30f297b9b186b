-- ===== src/Throttle/Rate.antt =====
-- The rate that the throttle keeps, and that a wait ends.
use supamail.Common.{
  ℕ, ◌+◌, ◌-◌, ◌*◌, ◌/◌, ◌≤◌, ◌≡◌, true, false, List, [], ◌∷◌, leb, leb→le, if◌then◌else◌, All, inl,
  inr, subst, sym, Bool-cases, arith,
}
use native.Mathlib.Nat.{lt-div-mul-add}
use supamail.Throttle.{
  units, ImapThrottle, create, refill, wait_ms, round, Round, Acquired, acquire, run,
}

split_time :
    (start last now rate : ℕ)
    → start ≤ last
    → last ≤ now
    → (now - start) * rate ≡ (last - start) * rate + (now - last) * rate
split_time start last now rate h k =
    let e : now - start ≡ (last - start) + (now - last) = omega arith in rw e (grind arith)

plus_zero : (n : ℕ) → n ≡ n + 0
plus_zero n = omega arith

plus_assoc : (a b c : ℕ) → (a + b) + c ≡ a + (b + c)
plus_assoc a b c = omega arith

more_time :
    (start last until rate : ℕ) → last ≤ until → (last - start) * rate ≤ (until - start) * rate
more_time start last until rate h =
    let e : last - start ≤ until - start = omega arith in grind arith

-- The wait of the code refills one token.
wait-enough : (rate : ℕ) → 1 ≤ rate → 60000 ≤ ((60000 + rate - 1) / rate) * rate
wait-enough rate h = omega (arith, lt-div-mul-add {a = 60000 + rate - 1} {b = rate} (omega arith))

module _ (max_commands start until : ℕ) where
  -- With `count` tokens taken since the bucket was full at `start`.
  record Within (count : ℕ) (t : ImapThrottle) : Type 0 where
    started : start ≤ t.last_refill
    ended : t.last_refill ≤ until
    spent : count * units + t.tokens ≤ max_commands * units + (t.last_refill - start) * max_commands

  refill-Within :
      (count now : ℕ) (t : ImapThrottle)
      → now ≤ until
      → Within count t
      → Within count (refill max_commands now t)
  unfolding refill
  refill-Within count now t u h = elim (Bool-cases (leb now t.last_refill)) [
    | inl back ↦ rw back h
    | inr on ↦ rw on (record {
      started = ground (arith, h.started);
      ended = u;
      spent = ground (arith, h.spent, h.started, split_time start t.last_refill now max_commands);
    })
  ]

  round-Within :
      (count now : ℕ) (t : ImapThrottle)
      → now ≤ until
      → Within count t
      → Within
          (count + (if (round max_commands now t).0 then 1 else 0))
          (round max_commands now t).1
  unfolding round
  round-Within count now t u h =
      let h' = refill-Within count now t u h in
      elim (Bool-cases (leb units (refill max_commands now t).tokens)) [
        | inl enough ↦
            rw enough
              (record { started = h'.started; ended = h'.ended; spent = ground (arith, h'.spent) })
        | inr few ↦
            rw few
              (record { started = h'.started; ended = h'.ended; spent = ground (arith, h'.spent) })
      ]

  run-Within :
      (count : ℕ) (times : List ℕ) (t : ImapThrottle)
      → All (λ now. now ≤ until) times
      → Within count t
      → Within (count + (run max_commands times t).0) (run max_commands times t).1
  unfolding run
  run-Within count [] t u h = subst (λ n. Within n t) (plus_zero count) h
  run-Within count (now ∷ times) t u h =
      let k =
        run-Within (count + (if (round max_commands now t).0 then 1 else 0)) times
          (round max_commands now t).1 u.1 (round-Within count now t u.0 h) in
      subst (λ n. Within n (run max_commands times (round max_commands now t).1).1)
        (plus_assoc count (if (round max_commands now t).0 then 1 else 0)
          (run max_commands times (round max_commands now t).1).0)
        k

  -- Any rounds of any calls of `acquire`, on a throttle that was made at `start`, at times up to
  -- `until`, in any order and whatever the clock shows: the tokens that they take are at most a
  -- minute's commands and `maxCommandsPerMinute` for each minute since the start.
  pub run-le :
      (times : List ℕ)
      → start ≤ until
      → All (λ now. now ≤ until) times
      → (run max_commands times (create max_commands start)).0 * 60000
        ≤ max_commands * 60000 + (until - start) * max_commands
  run-le times h u =
      let k =
        run-Within 0 times (create max_commands start) u
          (record { started = omega arith; ended = h; spent = omega arith }) in
      omega (
        arith,
        k.spent,
        more_time start (run max_commands times (create max_commands start)).1.last_refill until
            max_commands k.ended,
      )

longer : (a b rate : ℕ) → a ≤ b → a * rate ≤ b * rate
longer a b rate h = grind arith

wait-pos : (rate : ℕ) → 1 ≤ rate → 1 ≤ (60000 + rate - 1) / rate
wait-pos rate h = ground (arith, wait-enough rate h, longer ((60000 + rate - 1) / rate) 0 rate)

refill-enough :
    (max_commands now : ℕ) (t : ImapThrottle)
    → 1 ≤ max_commands
    → t.last_refill + wait_ms max_commands ≤ now
    → units ≤ (refill max_commands now t).tokens
unfolding refill wait_ms
refill-enough max_commands now t h k = elim (Bool-cases (leb now t.last_refill)) [
  | inl back ↦ absurd (omega (arith, leb→le now t.last_refill back, wait-pos max_commands h))
  | inr on ↦ rw on (
      ground (
        arith,
        wait-enough max_commands h,
        longer ((60000 + max_commands - 1) / max_commands) (now - t.last_refill) max_commands
            (omega arith),
      ))
]

refill-last :
    (max_commands now : ℕ) (t : ImapThrottle)
    → t.last_refill ≤ now
    → (refill max_commands now t).last_refill ≡ now
unfolding refill
refill-last max_commands now t h = ground arith

round-last :
    (max_commands now : ℕ) (t : ImapThrottle)
    → t.last_refill ≤ now
    → (round max_commands now t).1.last_refill ≡ now
unfolding round
round-last max_commands now t h = ground (arith, refill-last max_commands now t h)

round-enough :
    (max_commands now : ℕ) (t : ImapThrottle)
    → 1 ≤ max_commands
    → t.last_refill + wait_ms max_commands ≤ now
    → (round max_commands now t).0 ≡ true
unfolding round
round-enough max_commands now t h k = ground (arith, refill-enough max_commands now t h k)

-- A call that finds no token, at a time that the bucket has not seen pass, and then waits as long as
-- the code waits without being aborted, is granted one in its next round, if no other call took it.
pub acquire-granted :
    (max_commands : ℕ) (first second : Round) (rounds : List Round) (t : ImapThrottle)
    → 1 ≤ max_commands
    → first.aborted ≡ false
    → first.wait_aborted ≡ false
    → second.aborted ≡ false
    → t.last_refill ≤ first.now
    → first.now + wait_ms max_commands ≤ second.now
    → (acquire max_commands (first ∷ second ∷ rounds) t).0 ≡ Acquired.granted
unfolding acquire round
acquire-granted max_commands first second rounds t h a w b k l =
    elim (Bool-cases (round max_commands first.now t).0) [
      | inl taken ↦ simp (a, taken)
      | inr none_left ↦
          let late : (round max_commands first.now t).1.last_refill + wait_ms max_commands
              ≤ second.now =
            subst (λ n. n + wait_ms max_commands ≤ second.now)
              (sym (round-last max_commands first.now t k)) l in
          simp (
            a,
            none_left,
            w,
            b,
            round-enough max_commands second.now (round max_commands first.now t).1 h late,
          )
    ]
