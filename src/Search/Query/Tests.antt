-- ===== src/Search/Query/Tests.antt =====
-- Runs of the query parser and of the date reader, and their theorems at these inputs.
use supamail.Common.{
  ℕ, ◌+◌, ◌-◌, ◌*◌, ◌≡◌, ◌≤◌, refl, true, false, none, some, List, [], ◌∷◌, All, length, ltb, suc,
  arith,
}
use supamail.Common.Text.{codes, is_space, same_codes}
use supamail.Search.Terms.{
  tokenize_from, tokenize, squeeze, trim_start, trim_end, read_or, push_last, push_group, read_term,
  parse_text_terms,
}
use supamail.Search.Terms
use supamail.Search.Rules.{
  read_number, take_digits, span_digits, relative_date_max, is_relative_date, expect,
  match_absolute_date, is_leap, days_in_month, days_before_year, days_before_month, is_midnight,
  offset_ok, parts_ok, local_seconds, apply_zone, in_years, parse_absolute_date,
  is_valid_absolute_date, normalize_message_id, drop_angles,
}
use supamail.Search.Rules.Dates.{print_date, parse-print_date}
use supamail.Search.Rules.Distance.{edit_distance, Edits}
use supamail.Search.Rules.Distance.Rows.{edit_distance_lem}
use supamail.Search.Fields.{
  SearchFilter, TextFilterKind, DateOp, SizeOp, FlagKey, StructuredFilters, text_fields,
  flag_fields, has_text, text_field_by_operator,
}
use supamail.Search.Query.{
  Platform, ReadState, trim, strip_quotes, is_valid_date, ascii_lower, unit_factor, span_decimals,
  parse_size_to_bytes, map_is_flag, flip, infinite, parse_positive, split_name, match_operator,
  sort_of, routed, read_is, read_has, read_date, read_size, read_sort, read_limit, read_special,
  read_operator, is_known, read_token,
}
use supamail.Search.Query.Warnings.{ignored_or_warning, warn_ignored_or, warn_text}
use supamail.Search.Query.Filters.{IsRead, IsLimit}
use supamail.Search.Query.Parse.{
  join_or, join_last, read_or_item, push_filter, read_item, read_items, ParsedQuery, join_words,
  all_members, read_query_tokens, body_of, body_warnings, finish_query, query_items, parse_query,
}
use supamail.Search.Query.Result.{read_filters, parse_query_lem}
use supamail.Search.Query.Structured.{
  Pushed, structured_text, push_texts, push_flags, push_date, push_dates, push_sizes,
  filters_from_structured,
}
use supamail.Search.Query.Adapters.{Agrees, adapters_agree, filters_from_structured_lem}

-- A platform for ASCII and whole sizes.
abbrev ascii : Platform
ascii = record {
  to_lower = λ text. ascii_lower text;
  is_searchable = λ text. ltb 0 (length text);
  round_product = λ digits factor. some (read_number 0 digits * factor);
}

ready : Unit {0}
unfolding is_space same_codes tokenize_from tokenize squeeze trim_start trim_end read_or push_last
    push_group read_term Terms.read_token Terms.read_tokens parse_text_terms read_number take_digits
    span_digits relative_date_max is_relative_date expect match_absolute_date is_leap days_in_month
    days_before_year days_before_month is_midnight offset_ok parts_ok local_seconds apply_zone
    in_years parse_absolute_date is_valid_absolute_date normalize_message_id drop_angles text_fields
    flag_fields has_text text_field_by_operator trim strip_quotes is_valid_date ascii_lower
    unit_factor span_decimals parse_size_to_bytes map_is_flag flip infinite parse_positive
    split_name match_operator sort_of routed read_is read_has read_date read_size read_sort
    read_limit read_special read_operator is_known read_token ignored_or_warning warn_ignored_or
    warn_text join_or join_last read_or_item push_filter read_item read_items join_words
    read_query_tokens body_of body_warnings finish_query query_items parse_query structured_text
    push_texts push_flags push_date push_dates push_sizes filters_from_structured
ready = tt

leap_day : is_valid_absolute_date (codes "2024-02-29T23:59:59.5+15:59") ≡ true
unfolding ready
leap_day = refl

no_leap_day : is_valid_absolute_date (codes "1900-02-29") ≡ false
unfolding ready
no_leap_day = refl

before_year_1 : is_valid_absolute_date (codes "0001-01-01T00:30+01:00") ≡ false
unfolding ready
before_year_1 = refl

relative : is_relative_date (codes "7d") ≡ true
unfolding ready
relative = refl

parse-print_date_example :
    parse_absolute_date (print_date 2024 (suc 1) 29)
    ≡ some ((days_before_year 2024 + days_before_month 2024 1 + (29 - 1)) * 86400)
unfolding days_in_month is_leap
parse-print_date_example =
    parse-print_date 2024 1 29 (omega arith) (omega arith) (omega arith) (omega arith) (omega arith)

size_in_kb : parse_size_to_bytes ascii (codes "10 KB") ≡ some 10240
unfolding ready
size_in_kb = refl

abbrev query : List ℕ
query = codes "from:A@b.c OR to:d -is:unread hello OR larger:2kb after:2024-13-01 limit:500"

abbrev members : List SearchFilter
members =
    SearchFilter.text_filter TextFilterKind.from (codes "a@b.c") false (codes "from:A@b.c")
    ∷ SearchFilter.text_filter TextFilterKind.to (codes "d") false (codes "to:d")
    ∷ SearchFilter.flag (codes "\\Seen") false (codes "is:unread")
    ∷ SearchFilter.bytes SizeOp.larger 2048 false (codes "larger:2kb")
    ∷ []

items_read : read_filters (query_items ascii query).0 ≡ members
unfolding ready
items_read = refl

limit_capped : (query_items ascii query).1.limit ≡ some 100
unfolding ready
limit_capped = refl

parse_query_lem_example :
    (q : ParsedQuery) × (parse_query ascii query ≡ some q)
    × (all_members q.filters ≡ read_filters (query_items ascii query).0)
    × All IsRead (all_members q.filters)
    × IsLimit q.limit
parse_query_lem_example = parse_query_lem ascii query

abbrev fresh : ReadState
fresh = record { accounts = []; sort = none; limit = none; warnings = [] }

plain_value : trim (strip_quotes (codes "@Acme.com")) ≡ codes "@Acme.com"
unfolding ready
plain_value = refl

adapters_agree_example :
    All
      (λ rule. All (Agrees ascii fresh (codes "@Acme.com") rule) rule.operators)
      (text_fields ascii.to_lower)
adapters_agree_example = adapters_agree ascii fresh b'@' (codes "Acme.com") plain_value

abbrev structured : StructuredFilters
structured = record {
  text_value = λ k. elim k [ TextFilterKind.from ↦ some (codes "@Acme.com") | _ ↦ none ];
  flag_value = λ k. elim k [ FlagKey.is_unread ↦ some false | _ ↦ none ];
  date_value =
      λ op. elim op [ DateOp.after ↦ some (codes "soon") | DateOp.before ↦ some (codes "7d") ];
  size_value = λ op. none;
}

structured_read :
    filters_from_structured ascii (λ n. []) structured []
    ≡ some (
      SearchFilter.text_filter TextFilterKind.from_domain
            (codes "acme.com")
            false
            (codes "from:@Acme.com")
          ∷ SearchFilter.flag (codes "\\Seen") false (codes "is:read")
          ∷ SearchFilter.date DateOp.before (codes "7d") false (codes "before:7d")
          ∷ [],
      codes "unparseable date \"soon\" for after:; ignored" ∷ [],
    )
unfolding ready
structured_read = refl

filters_from_structured_lem_example :
    (out : Pushed) × (filters_from_structured ascii (λ n. []) structured [] ≡ some out)
    × All IsRead out.0
filters_from_structured_lem_example = filters_from_structured_lem ascii (λ n. []) structured []

kitten_sitting : edit_distance (codes "kitten") (codes "sitting") ≡ 3
unfolding edit_distance
kitten_sitting = refl

edit_distance_lem_example :
    Edits (codes "kitten") (codes "sitting") (edit_distance (codes "kitten") (codes "sitting"))
    × ((n : ℕ)
        → Edits (codes "kitten") (codes "sitting") n
        → edit_distance (codes "kitten") (codes "sitting") ≤ n)
edit_distance_lem_example = edit_distance_lem (codes "kitten") (codes "sitting")
