-- ===== src/Search/Query/Adapters.antt =====
-- The two adapters of a search, `parseQuery` and `filtersFromStructured`, over the one table.
use supamail.Common.{
  ℕ, ◌≡◌, refl, Bool, true, false, not, ◌&&◌, Option, none, some, List, [], ◌∷◌, ◌++◌, All,
  All-append, All-map, suc, ◌==◌, inl, inr, arith, Bool-cases, Option-cases, if◌then◌else◌,
}
use supamail.Common.Text.{codes, same_codes}
use supamail.Search.Fields.{
  SearchFilter, TextFieldRule, FlagFieldRule, DateOp, SizeOp, StructuredFilters, text_fields,
  flag_fields, date_fields, size_fields, text_field_by_operator, has_text,
}
use supamail.Search.Query.{
  Platform, trim, strip_quotes, ascii_lower, split_name, match_operator, is_known, is_valid_date,
  Reading, ReadState, read_operator, read_token,
}
use supamail.Search.Query.Filters.{IsRead}
use supamail.Search.Query.Result.{body_warnings-total}
use supamail.Search.Query.Structured.{
  Pushed, structured_text, text_at, push_texts, push_flags, push_date, push_dates, size_op_name,
  push_sizes, filters_from_structured,
}

-- The filter with the text that a query echoes for it.
abbrev pub as_typed : List ℕ → SearchFilter → SearchFilter
as_typed raw (SearchFilter.text_filter kind value negated _) =
    SearchFilter.text_filter kind value negated raw
as_typed raw f = f

-- An operator of a row: its lookup gives the row, and a token that starts with it is split after it.
abbrev Selects : List TextFieldRule → List ℕ → TextFieldRule → List ℕ → Type 0
Selects rules value rule op =
    (text_field_by_operator op rules ≡ some rule)
    × (match_operator (op ++ 58 ∷ value) ≡ some (record { minus = false; name = op; rest = value }))
    × (ascii_lower op ≡ op)

all_select :
    (to_lower : List ℕ → List ℕ) (value : List ℕ)
    → All
        (λ rule. All (Selects (text_fields to_lower) value rule) rule.operators)
        (text_fields to_lower)
unfolding text_fields text_field_by_operator has_text same_codes match_operator split_name
    ascii_lower
all_select to_lower value = (
  ((refl, refl, refl), tt),
  (
    tt,
    (
      ((refl, refl, refl), tt),
      (
        ((refl, refl, refl), tt),
        (
          ((refl, refl, refl), tt),
          (
            ((refl, refl, refl), ((refl, refl, refl), ((refl, refl, refl), tt))),
            (
              (
                (refl, refl, refl),
                (
                  (refl, refl, refl),
                  ((refl, refl, refl), ((refl, refl, refl), ((refl, refl, refl), tt))),
                ),
              ),
              (
                ((refl, refl, refl), ((refl, refl, refl), tt)),
                (
                  ((refl, refl, refl), tt),
                  (
                    ((refl, refl, refl), ((refl, refl, refl), ((refl, refl, refl), tt))),
                    (
                      ((refl, refl, refl), tt),
                      (
                        ((refl, refl, refl), ((refl, refl, refl), ((refl, refl, refl), tt))),
                        (
                          ((refl, refl, refl), ((refl, refl, refl), tt)),
                          (
                            ((refl, refl, refl), ((refl, refl, refl), tt)),
                            (((refl, refl, refl), tt), tt),
                          ),
                        ),
                      ),
                    ),
                  ),
                ),
              ),
            ),
          ),
        ),
      ),
    ),
  ),
)

suc-eq-zero : (n : ℕ) → (suc n == 0) ≡ false
suc-eq-zero n = ground arith

structured_text-IsRead :
    (rule : TextFieldRule) (value : List ℕ) → IsRead (structured_text rule value)
unfolding structured_text
structured_text-IsRead rule value = tt

flag-IsRead : All (λ (rule : FlagFieldRule). (b : Bool) → IsRead (rule.to_filter b)) flag_fields
unfolding flag_fields
flag-IsRead =
    (λ b. tt, (λ b. tt, (λ b. tt, (λ b. tt, (λ b. tt, (λ b. tt, (λ b. tt, (λ b. tt, tt))))))))

push_flags-IsRead :
    (structured : StructuredFilters) (rules : List FlagFieldRule) (out : Pushed)
    → All (λ (rule : FlagFieldRule). (b : Bool) → IsRead (rule.to_filter b)) rules
    → All IsRead out.0
    → All IsRead (push_flags structured rules out).0
unfolding push_flags
push_flags-IsRead structured [] out r h = h
push_flags-IsRead structured (rule ∷ rules) out r h =
    push_flags-IsRead structured rules _ r.1 (one (structured.flag_value rule.structured_key))
  where
    one :
        (v : Option Bool)
        → All IsRead
            (elim v as (λ _. Pushed) [
              | none ↦ out
              | some value ↦
                  if not rule.honors_false && not value
                  then out
                  else (out.0 ++ rule.to_filter value ∷ [], out.1)
            ]).0
    one none = h
    one (some value) = elim (Bool-cases (not rule.honors_false && not value)) [
      | inl skipped ↦ rw skipped h
      | inr pushed ↦
          rw pushed (All-append IsRead out.0 (rule.to_filter value ∷ []) h (r.0 value, tt))
    ]

push_date-IsRead :
    (op : DateOp) (value : List ℕ) (out : Pushed)
    → All IsRead out.0
    → All IsRead (push_date op value out).0
unfolding push_date
push_date-IsRead op value out h = elim (Bool-cases (is_valid_date value)) [
  | inl valid ↦ rw valid (All-append IsRead out.0 (_ ∷ []) h (valid, tt))
  | inr invalid ↦ rw invalid h
]

push_dates-IsRead :
    (structured : StructuredFilters) (ops : List DateOp) (out : Pushed)
    → All IsRead out.0
    → All IsRead (push_dates structured ops out).0
unfolding push_dates
push_dates-IsRead structured [] out h = h
push_dates-IsRead structured (op ∷ ops) out h =
    push_dates-IsRead structured ops _ (one (structured.date_value op))
  where
    one :
        (v : Option (List ℕ))
        → All IsRead
            (elim v as (λ _. Pushed) [ none ↦ out | some value ↦ push_date op value out ]).0
    one none = h
    one (some value) = push_date-IsRead op value out h

push_sizes-IsRead :
    (decimal : ℕ → List ℕ) (structured : StructuredFilters) (ops : List SizeOp) (out : Pushed)
    → All IsRead out.0
    → All IsRead (push_sizes decimal structured ops out).0
unfolding push_sizes
push_sizes-IsRead decimal structured [] out h = h
push_sizes-IsRead decimal structured (op ∷ ops) out h =
    push_sizes-IsRead decimal structured ops _ (one (structured.size_value op))
  where
    one :
        (v : Option ℕ)
        → All IsRead
            (elim v as (λ _. Pushed) [
              | none ↦ out
              | some value ↦ (
                out.0
                    ++ SearchFilter.bytes op value false
                        (size_op_name op ++ codes ":" ++ decimal value)
                      ∷ [],
                out.1,
              )
            ]).0
    one none = h
    one (some value) = All-append IsRead out.0 (_ ∷ []) h (tt, tt)

module _ (platform : Platform) where
  abbrev pub Agrees : ReadState → List ℕ → TextFieldRule → List ℕ → Type 0
  Agrees s value rule op =
      read_token platform (op ++ 58 ∷ value) s
      ≡ (Reading.filter (as_typed (op ++ 58 ∷ value) (structured_text rule value)), s)

  reads_text :
      (s : ReadState) (c : ℕ) (cs : List ℕ) (rule : TextFieldRule) (op raw : List ℕ)
      → text_field_by_operator op (text_fields platform.to_lower) ≡ some rule
      → read_operator platform op false (c ∷ cs) raw s
        ≡ (Reading.filter (as_typed raw (structured_text rule (c ∷ cs))), s)
  unfolding read_operator structured_text
  reads_text s c cs rule op raw found = simp (found, suc-eq-zero)

  known :
      (rule : TextFieldRule) (op : List ℕ)
      → text_field_by_operator op (text_fields platform.to_lower) ≡ some rule
      → is_known platform op ≡ true
  unfolding is_known
  known rule op found = rw (found, is_known) refl

  agrees :
      (s : ReadState) (c : ℕ) (cs : List ℕ) (rule : TextFieldRule) (op : List ℕ)
      → trim (strip_quotes (c ∷ cs)) ≡ c ∷ cs
      → Selects (text_fields platform.to_lower) (c ∷ cs) rule op
      → Agrees s (c ∷ cs) rule op
  unfolding read_token
  agrees s c cs rule op plain (found, split, same) =
      rw (split, read_token)
        (simp
          (same, plain, known rule op found, reads_text s c cs rule op (op ++ 58 ∷ c ∷ cs) found))

  -- A value that stays the same when its quotes and outer spaces are dropped, and is not empty: for
  -- every text field and each of its operators, the token `operator:value` is read as the filter
  -- that the structured field gives for the value, but for the text that is echoed, and nothing else
  -- is recorded.
  pub adapters_agree :
      (s : ReadState) (c : ℕ) (cs : List ℕ)
      → trim (strip_quotes (c ∷ cs)) ≡ c ∷ cs
      → All (λ rule. All (Agrees s (c ∷ cs) rule) rule.operators) (text_fields platform.to_lower)
  adapters_agree s c cs plain =
      All-map _ _ (text_fields platform.to_lower)
        (λ rule h. All-map _ _ rule.operators (λ op k. agrees s c cs rule op plain k) h)
        (all_select platform.to_lower (c ∷ cs))

  -- `filtersFromStructured`
  push_texts-IsRead :
      (structured : StructuredFilters) (rules : List TextFieldRule) (out : Pushed)
      → All IsRead out.0
      → (done : Pushed) × (push_texts platform structured rules out ≡ some done) × All IsRead done.0
  unfolding push_texts
  push_texts-IsRead structured [] out h = (out, refl, h)
  push_texts-IsRead structured (rule ∷ rules) out h =
      elim (Option-cases (text_at structured rule)) [
        | inl absent ↦
            let (done, e, k) = push_texts-IsRead structured rules out h in
            (done, rw (absent, push_texts) e, k)
        | inr (original, present) ↦
            let f = structured_text rule original in
            let (warnings, w) = body_warnings-total platform (f ∷ []) out.1 in
            let (done, e, k) =
              push_texts-IsRead structured rules (out.0 ++ f ∷ [], warnings)
                (All-append IsRead out.0 (f ∷ []) h (structured_text-IsRead rule original, tt)) in
            (done, rw (present, push_texts) (rw w e), k)
      ]

  -- `filtersFromStructured` never throws, and gives no OR filter and no date that is not valid.
  pub filters_from_structured_lem :
      (decimal : ℕ → List ℕ) (structured : StructuredFilters) (warnings : List (List ℕ))
      → (out : Pushed) × (filters_from_structured platform decimal structured warnings ≡ some out)
        × All IsRead out.0
  unfolding filters_from_structured
  filters_from_structured_lem decimal structured warnings =
      let (texts, e, h) =
        push_texts-IsRead structured (text_fields platform.to_lower) ([], warnings) tt in
      (
        push_sizes decimal structured size_fields
            (push_dates structured date_fields (push_flags structured flag_fields texts)),
        rw (e, filters_from_structured) refl,
        push_sizes-IsRead decimal structured size_fields _ (
            push_dates-IsRead structured date_fields _
              (push_flags-IsRead structured flag_fields texts flag-IsRead h)),
      )
