-- ===== src/SendOperations/Concurrency/Safety.antt =====
-- The submissions for a key, over every interleaving of its attempts.
use supamail.Common.{
  ℕ, ◌≡◌, refl, sym, ap, ◌∙◌, Bool, subst, ◌≤◌, ◌+◌, true, false, none, some, List, [], ◌∷◌,
  Outcome, ok, throw, arith, if◌then◌else◌,
}
use supamail.SendOperations.{
  SendOperationStatus, submitting, succeeded, not_delivered, unknown, SendError, SendOperation,
}
use supamail.SendOperations.Phases.{
  may_have_accepted, after_finish, Phase, idle, claiming, accepted, uncertain, releasable, released,
  after_start, after_execute, Runs, gets, starts, reconciles, executes,
}
use supamail.SendOperations.Phases
use supamail.SendOperations.Claims.{run_send_operation-Runs}
use supamail.SendOperations.Claims.Parts.{Returned, Threw}
use supamail.SendOperations.Concurrency.{
  Ledger, claimable, finished, Attempt, Applied, lost, kept, Acts, reads, refreshes, looks_up,
  notifies, is_granted, is_denied, start_fails, finishes, finish_fails, submits, OneActs, here,
  there, Reached, initially, arrives, expires, acts, delivery, deliveries,
}

-- The attempts that hold the claim: submitted under it, and not given it back.
abbrev holding : Phase → ℕ
holding idle = 0
holding released = 0
holding _ = 1

abbrev holders : {T : Type 0} → List (Attempt T) → ℕ
holders [] = 0
holders (a ∷ xs) = holding a.phase + holders xs

-- The submissions that a phase allows an attempt to have delivered.
abbrev delivered_by : Phase → ℕ
delivered_by accepted = 1
delivered_by uncertain = 1
delivered_by _ = 0

-- The calls that are left keep the rules, and the count of submissions is that of the phase.
abbrev KeepsRules : {T : Type 0} → Attempt T → Type 0
KeepsRules a = Runs Returned Threw a.phase a.calls × (a.delivered ≡ delivered_by a.phase)

abbrev KeepRules : {T : Type 0} → List (Attempt T) → Type 0
KeepRules [] = Unit {0}
KeepRules (a ∷ xs) = KeepsRules a × KeepRules xs

-- One holder at most, and none while a claim would be granted; `n` counts those besides.
abbrev Exclusive : Ledger → ℕ → Type 0
Exclusive l n = (n ≤ 1) × (claimable l ≡ true → n ≡ 0)

Exclusive-start_fails :
    (n : ℕ) {l l' : Ledger} → Applied l (some submitting) l' → Exclusive l n → Exclusive l' n
Exclusive-start_fails n lost h = h
Exclusive-start_fails n kept h = (h.0, λ e. cc)

-- A status other than `not_delivered` makes no row claimable.
Exclusive-finished :
    (n : ℕ) (st : SendOperationStatus) (l : Ledger)
    → claimable (some st) ≡ false
    → Exclusive l n
    → Exclusive (finished st l) n
Exclusive-finished n st none ne h = h
Exclusive-finished n st (some succeeded) ne h = h
Exclusive-finished n st (some submitting) ne h = (h.0, λ e. cc)
Exclusive-finished n st (some not_delivered) ne h = (h.0, λ e. cc)
Exclusive-finished n st (some unknown) ne h = (h.0, λ e. cc)

releases : (p : Phase) (n : ℕ) → p ≡ releasable → holding p + n ≤ 1 → n ≡ 0
releases p n e h = let le : 1 + n ≤ 1 = subst (λ q. holding q + n ≤ 1) e h in omega arith

-- `finish`, whether or not it was applied.
Exclusive-finish :
    (n : ℕ) (p : Phase) (st : SendOperationStatus) {l l' : Ledger}
    → (st ≡ not_delivered → p ≡ releasable)
    → Applied l (finished st l) l'
    → Exclusive l (holding p + n)
    → Exclusive l' (holding (after_finish st p) + n)
Exclusive-finish n p not_delivered x w h =
    let zero = releases p n (x refl) h.0 in (omega arith, λ _. omega arith)
Exclusive-finish n p submitting x lost h = h
Exclusive-finish n p submitting {l} x kept h = Exclusive-finished _ submitting l refl h
Exclusive-finish n p succeeded x lost h = h
Exclusive-finish n p succeeded {l} x kept h = Exclusive-finished _ succeeded l refl h
Exclusive-finish n p unknown x lost h = h
Exclusive-finish n p unknown {l} x kept h = Exclusive-finished _ unknown l refl h

holding-after_execute : {T : Type 0} (r : Outcome SendError T) → holding (after_execute r) ≡ 1
holding-after_execute (ok t) = refl
holding-after_execute (throw e) =
    elim (may_have_accepted e) as (λ s. holding (if s then uncertain else releasable) ≡ 1) [
      | true ↦ refl
      | false ↦ refl
    ]

-- A submission delivers what its phase says.
delivery-after_execute :
    {T : Type 0} (r : Outcome SendError T) → 0 + delivery r ≡ delivered_by (after_execute r)
delivery-after_execute (ok t) = refl
delivery-after_execute (throw e) =
    elim (may_have_accepted e)
      as (λ s. 0 + (if s then 1 else 0) ≡ delivered_by (if s then uncertain else releasable)) [
        | true ↦ refl
        | false ↦ refl
      ]

delivered-after_start :
    {T : Type 0} (n : ℕ) (r : Outcome SendError (Bool × SendOperation T))
    → n ≡ 0
    → n ≡ delivered_by (after_start r)
delivered-after_start n (ok (true, row)) e = e
delivered-after_start n (ok (false, row)) e = e
delivered-after_start n (throw error) e = e

delivered-after_finish :
    (n : ℕ) (p : Phase) (st : SendOperationStatus)
    → (st ≡ not_delivered → p ≡ releasable)
    → n ≡ delivered_by p
    → n ≡ delivered_by (after_finish st p)
delivered-after_finish n p not_delivered x e = e ∙ ap delivered_by (x refl)
delivered-after_finish n p submitting x e = e
delivered-after_finish n p succeeded x e = e
delivered-after_finish n p unknown x e = e

granted : (l : Ledger) (n : ℕ) → (claimable l ≡ true → 0 + n ≡ 0) → claimable l ≡ true → 1 + n ≤ 1
granted l n h c = let e = h c in omega arith

-- One call keeps the claim exclusive, beside `n` other holders.
Acts-Exclusive :
    {T : Type 0} (n : ℕ) {l l' : Ledger} {a a' : Attempt T}
    → Acts l a l' a'
    → KeepsRules a
    → Exclusive l (holding a.phase + n)
    → KeepsRules a' × Exclusive l' (holding a'.phase + n)
Acts-Exclusive n (reads r) (gets k, d) h = ((k r, d), h)
Acts-Exclusive n (refreshes r) (Phases.refreshes k, d) h = ((k r, d), h)
Acts-Exclusive n (looks_up r) (reconciles k, d) h = ((k r, d), h)
Acts-Exclusive n (notifies r) (Phases.notifies k, d) h = ((k r, d), h)
Acts-Exclusive n (is_granted row c) (starts k, d) h =
    ((k (ok (true, row)), delivered-after_start _ (ok (true, row)) d), (granted _ n h.1 c, λ e. cc))
Acts-Exclusive n (is_denied row) (starts k, d) h =
    ((k (ok (false, row)), delivered-after_start _ (ok (false, row)) d), h)
Acts-Exclusive n (start_fails e w) (starts k, d) h = ((k (throw e), d), Exclusive-start_fails _ w h)
Acts-Exclusive n (finishes row) (Phases.finishes x k, d) h =
    ((k (ok row), delivered-after_finish _ _ _ x d), Exclusive-finish n _ _ x kept h)
Acts-Exclusive n (finish_fails e w) (Phases.finishes x k, d) h =
    ((k (throw e), delivered-after_finish _ _ _ x d), Exclusive-finish n _ _ x w h)
Acts-Exclusive n {l} (submits r) (executes k, d) h = (
  (k r, ap (λ m. m + delivery r) d ∙ delivery-after_execute r),
  subst (λ m. Exclusive l (m + n)) (sym (holding-after_execute r)) h,
)

OneActs-Exclusive :
    {T : Type 0} (n : ℕ) {l l' : Ledger} {xs xs' : List (Attempt T)}
    → OneActs l xs l' xs'
    → KeepRules xs
    → Exclusive l (holders xs + n)
    → KeepRules xs' × Exclusive l' (holders xs' + n)
OneActs-Exclusive n {l} {l'} (here {a = a} {a' = a'} {xs = xs} s) (r, rs) h =
    let (r', h') = Acts-Exclusive (holders xs + n) s r (subst (Exclusive l) (omega arith) h) in
    ((r', rs), subst (Exclusive l') (omega arith) h')
OneActs-Exclusive n {l} {l'} (there {a = a} {xs = xs} {xs' = xs'} s) (r, rs) h =
    let (rs', h') =
      OneActs-Exclusive (holding a.phase + n) s rs (subst (Exclusive l) (omega arith) h) in
    ((r, rs'), subst (Exclusive l') (omega arith) h')

Reached-Exclusive :
    {T : Type 0} {l : Ledger} {xs : List (Attempt T)}
    → Reached l xs
    → KeepRules xs × Exclusive l (holders xs + 0)
Reached-Exclusive initially = (tt, (omega arith, λ _. refl))
Reached-Exclusive (arrives on b op r) =
    let (rs, h) = Reached-Exclusive r in
    (((run_send_operation-Runs on b op, refl), rs), subst (Exclusive _) (omega arith) h)
Reached-Exclusive (expires r) = let (rs, h) = Reached-Exclusive r in (rs, (h.0, λ e. cc))
Reached-Exclusive (acts r s) = let (rs, h) = Reached-Exclusive r in OneActs-Exclusive 0 s rs h

delivered_by-holding : (p : Phase) → delivered_by p ≤ holding p
delivered_by-holding idle = omega arith
delivered_by-holding claiming = omega arith
delivered_by-holding accepted = omega arith
delivered_by-holding uncertain = omega arith
delivered_by-holding releasable = omega arith
delivered_by-holding released = omega arith

deliveries-holders :
    {T : Type 0} (xs : List (Attempt T)) → KeepRules xs → deliveries xs ≤ holders xs
deliveries-holders [] h = omega arith
deliveries-holders (x ∷ xs) ((rules, d), h) =
    omega (arith, d, delivered_by-holding x.phase, deliveries-holders xs h)

-- However the attempts for one key interleave, whatever fails and whichever claims expire: over a
-- store that keeps its contract, at most one call of `execute`, of all the calls that all the attempts
-- have made, ended with the provider having accepted the message, or possibly having accepted it.
pub Reached-deliveries :
    {T : Type 0} {l : Ledger} {xs : List (Attempt T)} → Reached l xs → deliveries xs ≤ 1
Reached-deliveries {xs = xs} r =
    let (rules, h) = Reached-Exclusive r in omega (arith, h.0, deliveries-holders xs rules)

-- Over the same interleavings: once a call of `execute` has ended with the provider having accepted the
-- message, or possibly having accepted it, the row of the key is there and can not be claimed again,
-- whatever the attempt does afterwards.
pub Reached-claimable :
    {T : Type 0} {l : Ledger} {xs : List (Attempt T)}
    → Reached l xs
    → deliveries xs ≡ 1
    → claimable l ≡ false
Reached-claimable {l = l} {xs = xs} r one =
    let (rules, h) = Reached-Exclusive r in
    let d = deliveries-holders xs rules in
    elim (claimable l) as (λ c. (c ≡ true → holders xs + 0 ≡ 0) → c ≡ false) [
      | false ↦ λ _. refl
      | true ↦ λ h. let z = h refl in absurd (omega arith)
    ]
      h.1
