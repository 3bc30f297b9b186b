-- ===== src/Search/Query/Structured.antt =====
-- apps/api/src/search/parse.ts: `filtersFromStructured`. A result is none where the code would throw.
use supamail.Common.{ℕ, false, ◌&&◌, not, Option, none, some, List, [], ◌∷◌, ◌++◌, if◌then◌else◌}
use supamail.Common.Text.{codes}
use supamail.Search.Fields.{
  SearchFilter, TextFieldRule, DateOp, SizeOp, FlagFieldRule, StructuredFilters, text_fields,
  flag_fields, date_fields, size_fields,
}
use supamail.Search.Query.{Platform, is_valid_date, routed}
use supamail.Search.Query.Parse.{body_warnings}

-- The filters, and the warnings that the function adds to.
abbrev pub Pushed : Type 0
Pushed = List SearchFilter × List (List ℕ)

abbrev pub structured_raw_of : TextFieldRule → List ℕ → List ℕ
structured_raw_of rule original = elim rule.structured_raw [
  | none ↦ rule.raw_prefix ++ codes ":" ++ original
  | some raw ↦ raw original
]

-- The filter of a text field.
unfoldable pub structured_text : TextFieldRule → List ℕ → SearchFilter
structured_text rule original =
    SearchFilter.text_filter (routed rule original).kind (routed rule original).value false
      (structured_raw_of rule original)

abbrev pub text_at : StructuredFilters → TextFieldRule → Option (List ℕ)
text_at structured rule = elim rule.structured_key [
  | none ↦ none
  | some key ↦ elim (structured.text_value key) [
    | none ↦ none
    | some [] ↦ none
    | some (c ∷ cs) ↦ some (c ∷ cs)
  ]
]

unfoldable pub push_texts :
    Platform → StructuredFilters → List TextFieldRule → Pushed → Option Pushed
push_texts platform structured [] out = some out
push_texts platform structured (rule ∷ rules) out = elim (text_at structured rule) [
  | none ↦ push_texts platform structured rules out
  | some original ↦ elim (body_warnings platform (structured_text rule original ∷ []) out.1) [
    | none ↦ none
    | some warnings ↦
        push_texts platform structured rules (out.0 ++ structured_text rule original ∷ [], warnings)
  ]
]

unfoldable pub push_flags : StructuredFilters → List FlagFieldRule → Pushed → Pushed
push_flags structured [] out = out
push_flags structured (rule ∷ rules) out =
    push_flags structured rules (elim (structured.flag_value rule.structured_key) [
      | none ↦ out
      | some value ↦
          if not rule.honors_false && not value
          then out
          else (out.0 ++ rule.to_filter value ∷ [], out.1)
    ])

abbrev date_op_name : DateOp → List ℕ
date_op_name DateOp.after = codes "after"
date_op_name DateOp.before = codes "before"

abbrev pub size_op_name : SizeOp → List ℕ
size_op_name SizeOp.larger = codes "larger"
size_op_name SizeOp.smaller = codes "smaller"

-- `pushDate`
unfoldable pub push_date : DateOp → List ℕ → Pushed → Pushed
push_date op value out =
    if is_valid_date value
    then (
      out.0 ++ SearchFilter.date op value false (date_op_name op ++ codes ":" ++ value) ∷ [],
      out.1,
    )
    else (
      out.0,
      out.1
          ++ (codes "unparseable date \""
              ++ value
              ++ codes "\" for "
              ++ date_op_name op
              ++ codes ":; ignored")
            ∷ [],
    )

unfoldable pub push_dates : StructuredFilters → List DateOp → Pushed → Pushed
push_dates structured [] out = out
push_dates structured (op ∷ ops) out =
    push_dates structured ops
      (elim (structured.date_value op) [ none ↦ out | some value ↦ push_date op value out ])

-- `decimal` writes a number, as a template literal does.
unfoldable pub push_sizes : (ℕ → List ℕ) → StructuredFilters → List SizeOp → Pushed → Pushed
push_sizes decimal structured [] out = out
push_sizes decimal structured (op ∷ ops) out =
    push_sizes decimal structured ops (elim (structured.size_value op) [
      | none ↦ out
      | some value ↦ (
        out.0
            ++ SearchFilter.bytes op value false (size_op_name op ++ codes ":" ++ decimal value)
              ∷ [],
        out.1,
      )
    ])

unfoldable pub filters_from_structured :
    Platform → (ℕ → List ℕ) → StructuredFilters → List (List ℕ) → Option Pushed
filters_from_structured platform decimal structured warnings =
    elim (push_texts platform structured (text_fields platform.to_lower) ([], warnings)) [
      | none ↦ none
      | some out ↦ some (
          push_sizes decimal structured size_fields
            (push_dates structured date_fields (push_flags structured flag_fields out)))
    ]
