-- ===== src/MigrationId/Order.antt =====
-- Readiness as a relation between schema versions.
use supamail.Common.{
  ℕ, ◌≡◌, sym, subst, ap, ◌∙◌, ◌<◌, ◌≤◌, ◌↔◌, ◌⊎◌, inl, inr, true, false, none, some, List, [], ◌∷◌,
  All, refl, ◌≢◌, ◌&&◌, Bool-cases, Bool, if◌then◌else◌, Option-cases, ok, throw, arith,
}
use supamail.Common.Text.{same_codes_iff, is_space}
use supamail.MigrationId.{
  InvalidSchemaVersionError, invalid_schema_version, assert_required_schema_version, sequence_ready,
  version_ready, is_schema_version_ready, is_digit, no_space, is_name, public_migration_sequence,
}

abbrev pub Ready : List ℕ → List ℕ → Type 0
Ready current required =
    (c : ℕ) × (r : ℕ) × (public_migration_sequence current ≡ some c)
    × (public_migration_sequence required ≡ some r)
    × (((c ≡ r) × (current ≡ required)) ⊎ ((r < c) × (29 ≤ r)))

sequence_ready_iff :
    (c r : ℕ) (current required : List ℕ)
    → (sequence_ready c r current required ≡ true)
      ↔ (((c ≡ r) × (current ≡ required)) ⊎ ((r < c) × (29 ≤ r)))
unfolding sequence_ready
sequence_ready_iff c r current required = ground (arith, same_codes_iff current required)

-- The three cases of the two sequences.
data Cases (current required : List ℕ) : Type 0 where
  invalid :
      public_migration_sequence required ≡ none
      → is_schema_version_ready current required ≡ throw (invalid_schema_version required)
      → Cases current required
  malformed :
      (r : ℕ)
      → public_migration_sequence required ≡ some r
      → public_migration_sequence current ≡ none
      → is_schema_version_ready current required ≡ ok false
      → Cases current required
  ordered :
      (c r : ℕ)
      → public_migration_sequence required ≡ some r
      → public_migration_sequence current ≡ some c
      → is_schema_version_ready current required ≡ ok (sequence_ready c r current required)
      → Cases current required

cases : (current required : List ℕ) → Cases current required
unfolding is_schema_version_ready assert_required_schema_version version_ready
cases current required = elim (Option-cases (public_migration_sequence required)) [
  | inl e ↦ invalid e (ground arith)
  | inr (r, e) ↦ elim (Option-cases (public_migration_sequence current)) [
    | inl f ↦ malformed r e f (ground arith)
    | inr (c, f) ↦ ordered c r e f (ground arith)
  ]
]

-- `isSchemaVersionReady` returns true exactly if both versions are migration ids and either they are
-- the same id or the current one is later in the sequence and the required one is 29 or later.
pub is_schema_version_ready_iff :
    (current required : List ℕ)
    → (is_schema_version_ready current required ≡ ok true) ↔ Ready current required
is_schema_version_ready_iff current required = elim (cases current required) [
  | invalid e h ↦ (λ k. cc, λ (c, r, ec, er, x). cc)
  | malformed r e f h ↦ (λ k. cc, λ (c, r, ec, er, x). cc)
  | ordered c r e f h ↦ (
    λ k.
        let ready : sequence_ready c r current required ≡ true = cc in
        (c, r, f, e, (sequence_ready_iff c r current required).0 ready),
    λ (c', r', ec, er, x).
        let same_c : c' ≡ c = cc in
        let same_r : r' ≡ r = cc in
        let x' = subst (λ n. ((n ≡ r') × (current ≡ required)) ⊎ ((r' < n) × (29 ≤ r'))) same_c x in
        let x'' = subst (λ n. ((c ≡ n) × (current ≡ required)) ⊎ ((n < c) × (29 ≤ n))) same_r x' in
        h ∙ ap ok ((sequence_ready_iff c r current required).1 x''),
  )
]

-- A public migration id: four digits, an underscore, and a name without spaces.
abbrev pub IsDigit : ℕ → Type 0
IsDigit c = (48 ≤ c) × (c ≤ 57)

abbrev pub IsMigrationId : List ℕ → Type 0
IsMigrationId text =
    (a : ℕ) × (b : ℕ) × (c : ℕ) × (d : ℕ) × (name : List ℕ) × (text ≡ a ∷ b ∷ c ∷ d ∷ 95 ∷ name)
    × IsDigit a
    × IsDigit b
    × IsDigit c
    × IsDigit d
    × (name ≢ [])
    × All (λ unit. is_space unit ≡ false) name

no_space_iff : (text : List ℕ) → (no_space text ≡ true) ↔ All (λ unit. is_space unit ≡ false) text
unfolding no_space
no_space_iff [] = (λ _. tt, λ _. refl)
no_space_iff (c ∷ cs) = ground (arith, no_space_iff cs)

-- The tests of the pattern on a text of six units or more.
pattern_iff :
    (a b c d u n : ℕ) (name : List ℕ)
    → ((is_digit a && is_digit b && is_digit c && is_digit d && is_name (u ∷ n ∷ name)) ≡ true) ↔ (
        IsDigit a
        × IsDigit b
        × IsDigit c
        × IsDigit d
        × (u ≡ 95)
        × All (λ unit. is_space unit ≡ false) (n ∷ name))
unfolding is_digit is_name
pattern_iff a b c d u n name = ground (arith, no_space_iff (n ∷ name))

some_if : (test : Bool) (n : ℕ) → (if test then some n else none) ≢ none → test ≡ true
some_if true n h = refl
some_if false n h = absurd (h refl)

public_migration_sequence-some :
    (text : List ℕ) → IsMigrationId text → public_migration_sequence text ≢ none
unfolding public_migration_sequence
public_migration_sequence-some text (a, b, c, d, [], e, ha, hb, hc, hd, ne, h) f = absurd (ne refl)
public_migration_sequence-some text (a, b, c, d, n ∷ name, e, ha, hb, hc, hd, ne, h) f =
    let test = (pattern_iff a b c d 95 n name).1 (ha, hb, hc, hd, refl, h) in
    let g = subst (λ t. public_migration_sequence t ≡ none) e f in let k = rw test at g in cc

public_migration_sequence-IsMigrationId :
    (text : List ℕ) → public_migration_sequence text ≢ none → IsMigrationId text
unfolding public_migration_sequence is_name
public_migration_sequence-IsMigrationId [] h = absurd (h refl)
public_migration_sequence-IsMigrationId (a ∷ []) h = absurd (h refl)
public_migration_sequence-IsMigrationId (a ∷ b ∷ []) h = absurd (h refl)
public_migration_sequence-IsMigrationId (a ∷ b ∷ c ∷ []) h = absurd (h refl)
public_migration_sequence-IsMigrationId (a ∷ b ∷ c ∷ d ∷ []) h =
    let t = some_if _ _ h in absurd (ground arith)
public_migration_sequence-IsMigrationId (a ∷ b ∷ c ∷ d ∷ u ∷ []) h =
    let t = some_if _ _ h in absurd (ground arith)
public_migration_sequence-IsMigrationId (a ∷ b ∷ c ∷ d ∷ u ∷ n ∷ name) h =
    let (ha, hb, hc, hd, mark, rest) = (pattern_iff a b c d u n name).0 (some_if _ _ h) in
    (
      a,
      b,
      c,
      d,
      n ∷ name,
      ap (λ v. a ∷ b ∷ c ∷ d ∷ v ∷ n ∷ name) mark,
      ha,
      hb,
      hc,
      hd,
      (λ e. cc),
      rest,
    )

-- `isSchemaVersionReady` throws exactly if the required version is not four digits, an underscore and
-- a name without spaces, and the error then carries that version; it returns false exactly if the
-- required version is such an id and the current one is not ready for it, being no id included.
pub is_schema_version_ready-throw :
    (current required : List ℕ)
    → ((e : InvalidSchemaVersionError)
        → (is_schema_version_ready current required ≡ throw e)
          ↔ ((¬ IsMigrationId required) × (e ≡ invalid_schema_version required)))
      × ((is_schema_version_ready current required ≡ ok false)
          ↔ (IsMigrationId required × (¬ Ready current required)))
is_schema_version_ready-throw current required = elim (cases current required) [
  | invalid e h ↦
      let no_id : ¬ IsMigrationId required = λ id. public_migration_sequence-some required id e in
      (λ error. (λ k. (no_id, cc), λ k. h ∙ ap throw (sym k.1)), (λ k. cc, λ k. absurd (no_id k.0)))
  | malformed r e f h ↦
      let id = public_migration_sequence-IsMigrationId required (λ n. cc) in
      (λ error. (λ k. cc, λ k. absurd (k.0 id)), (λ k. (id, λ (c, r', ec, er, x). cc), λ k. h))
  | ordered c r e f h ↦
      let id = public_migration_sequence-IsMigrationId required (λ n. cc) in
      (
        λ error. (λ k. cc, λ k. absurd (k.0 id)),
        (
          λ k. (id, λ ready. let t = (is_schema_version_ready_iff current required).1 ready in cc),
          λ k. elim (Bool-cases (sequence_ready c r current required)) [
            | inl as_required ↦
                absurd
                  (k.1 ((is_schema_version_ready_iff current required).0 (h ∙ ap ok as_required)))
            | inr behind ↦ h ∙ ap ok behind
          ],
        ),
      )
]

Ready-trans : (a b c : List ℕ) → Ready a b → Ready b c → Ready a c
Ready-trans a b c (x, y, ex, ey, h) (y', z, ey', ez, k) =
    let same : y' ≡ y = cc in
    (
      x,
      z,
      ex,
      ez,
      elim h [
        | inl (e, f) ↦ elim k [
          | inl (e', f') ↦ inl (omega arith, f ∙ f')
          | inr (l, m) ↦ inr (omega arith, m)
        ]
        | inr (l, m) ↦ elim k [
          | inl (e', f') ↦ inr (omega arith, omega arith)
          | inr (l', m') ↦ inr (omega arith, m')
        ]
      ],
    )

Ready-antisym : (a b : List ℕ) → Ready a b → Ready b a → a ≡ b
Ready-antisym a b (x, y, ex, ey, h) (y', x', ey', ex', k) =
    let same_y : y' ≡ y = cc in
    let same_x : x' ≡ x = cc in
    elim h [
      | inl (e, f) ↦ f
      | inr (l, m) ↦ elim k [ inl (e, f) ↦ sym f | inr (l', m') ↦ absurd (omega arith) ]
    ]

-- Readiness is an order of the versions: a schema that is ready for a version is ready for every
-- version that this one is ready for, and two versions that are ready for each other are the same.
is_schema_version_ready_trans :
    (a b c : List ℕ)
    → is_schema_version_ready a b ≡ ok true
    → is_schema_version_ready b c ≡ ok true
    → (is_schema_version_ready a c ≡ ok true) × (is_schema_version_ready b a ≡ ok true → a ≡ b)
is_schema_version_ready_trans a b c h k =
    let x = (is_schema_version_ready_iff a b).0 h in
    let y = (is_schema_version_ready_iff b c).0 k in
    (
      (is_schema_version_ready_iff a c).1 (Ready-trans a b c x y),
      λ l. Ready-antisym a b x ((is_schema_version_ready_iff b a).0 l),
    )
