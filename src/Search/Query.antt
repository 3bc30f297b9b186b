-- ===== src/Search/Query.antt =====
-- apps/api/src/search/parse.ts: the operators of a query. `Platform` is what the language gives:
-- `toLowerCase`, `/[\p{L}\p{N}]/u.test`, and `Math.round(Number(digits) * unit)`, which is none where
-- the number is not finite.
pub mod Filters
pub mod Warnings
pub mod Parse
pub mod Result
pub mod Structured
pub mod Adapters
mod Tests
use supamail.Common.{
  ℕ, zero, suc, ◌+◌, ◌-◌, ◌*◌, ◌^◌, min, Bool, true, false, ◌&&◌, ◌||◌, not, Option, none, some,
  List, [], ◌∷◌, ◌++◌, map, length, take, drop, ltb, leb, ◌==◌, if◌then◌else◌,
}
use supamail.Common.Text.{codes, same_codes, starts_with, ends_with, is_space}
use supamail.Search.Terms.{trim_start, trim_end}
use supamail.Search.Rules.{
  is_digit, read_number, span_digits, is_relative_date, is_valid_absolute_date,
}
use supamail.Search.Fields.{
  SearchFilter, SearchSort, DateOp, SizeOp, TextFieldRule, Routed, text_fields,
  text_field_by_operator, has_text, route_from,
}

pub record Platform : Type 0 where
  pub to_lower : List ℕ → List ℕ
  pub is_searchable : List ℕ → Bool
  pub round_product : List ℕ → ℕ → Option ℕ

abbrev pub is : List ℕ → List ℕ → Bool
is v w = same_codes v w

unfoldable pub trim : List ℕ → List ℕ
trim text = trim_end (trim_start text)

unfoldable pub strip_quotes : List ℕ → List ℕ
strip_quotes value =
    if leb 2 (length value) && starts_with 34 value && ends_with 34 value
    then take (length value - 2) (drop 1 value)
    else value

-- `isValidDate`
unfoldable pub is_valid_date : List ℕ → Bool
is_valid_date value = is_relative_date value || is_valid_absolute_date value

-- Lower case of a text that can only be ASCII, or is compared with ASCII by a regular expression.
abbrev lower_unit : ℕ → ℕ
lower_unit c = if leb 65 c && leb c 90 then c + 32 else c

unfoldable pub ascii_lower : List ℕ → List ℕ
ascii_lower text = map lower_unit text

-- The unit of `SIZE_RE`, with its factor.
unfoldable pub unit_factor : List ℕ → Option ℕ
unit_factor [] = some 1
unit_factor (c ∷ cs) =
    if is (c ∷ cs) (codes "b")
    then some 1
    else if is (c ∷ cs) (codes "kb")
    then some 1024
    else if is (c ∷ cs) (codes "mb")
    then some (1024 ^ 2)
    else if is (c ∷ cs) (codes "gb")
    then some (1024 ^ 3)
    else none

-- `(?:\.\d+)?` at the front: what it matches, and what follows.
unfoldable pub span_decimals : List ℕ → List ℕ × List ℕ
span_decimals [] = ([], [])
span_decimals (c ∷ cs) =
    let found : List ℕ × List ℕ = (c ∷ (span_digits cs).0, (span_digits cs).1) in
    let missing : List ℕ × List ℕ = ([], c ∷ cs) in
    if c == b'.' && leb 1 (length (span_digits cs).0) then found else missing

unfoldable pub parse_size_to_bytes : Platform → List ℕ → Option ℕ
parse_size_to_bytes platform value =
    let (whole, after) = span_digits (trim value) in
    let (decimals, rest) = span_decimals after in
    if length whole == 0 then none else elim (unit_factor (ascii_lower (trim_start rest))) [
      | none ↦ none
      | some factor ↦ platform.round_product (whole ++ decimals) factor
    ]

-- `mapIsFlag`; none for its warning.
unfoldable pub map_is_flag : Platform → List ℕ → Option SearchFilter
map_is_flag platform value =
    let v = platform.to_lower value in
    let raw = codes "is:" ++ value in
    if is v (codes "read") || is v (codes "seen")
    then some (SearchFilter.flag (codes "\\Seen") false raw)
    else if is v (codes "unread") || is v (codes "unseen")
    then some (SearchFilter.flag (codes "\\Seen") true raw)
    else if is v (codes "flagged") || is v (codes "starred") || is v (codes "important")
    then some (SearchFilter.flag (codes "\\Flagged") false raw)
    else if is v (codes "answered") || is v (codes "replied")
    then some (SearchFilter.flag (codes "\\Answered") false raw)
    else if is v (codes "draft")
    then some (SearchFilter.flag (codes "\\Draft") false raw)
    else none

-- `{ ...mapped, negated: !mapped.negated }`, for the flags that `mapIsFlag` gives.
unfoldable pub flip : SearchFilter → SearchFilter
flip (SearchFilter.flag value negated raw) = SearchFilter.flag value (not negated) raw
flip f = f

-- The least number that `Number` reads as infinite.
unfoldable pub infinite : ℕ
infinite = 2 ^ 1024 - 2 ^ 970

-- `Number.parseInt(text, 10)` of a trimmed text, where it is positive and finite.
unfoldable pub parse_positive : List ℕ → Option ℕ
unfolding infinite
parse_positive text =
    let n = read_number 0 (span_digits (if starts_with b'+' text then drop 1 text else text)).0 in
    if ltb 0 n && ltb n infinite then some n else none

-- `/^(-)?([A-Za-z][\w-]*):([\s\S]*)$/`
pub record OperatorMatch : Type 0 where
  pub minus : Bool
  pub name : List ℕ
  pub rest : List ℕ

abbrev is_letter : ℕ → Bool
is_letter c = (leb 65 c && leb c 90) || (leb 97 c && leb c 122)

abbrev is_name_unit : ℕ → Bool
is_name_unit c = is_letter c || is_digit c || c == b'_' || c == b'-'

unfoldable pub split_name : List ℕ → Option (List ℕ × List ℕ)
split_name [] = none
split_name (c ∷ cs) =
    let longer : Option (List ℕ × List ℕ) = elim (split_name cs) [
      | none ↦ none
      | some (name, rest) ↦ some (c ∷ name, rest)
    ] in
    if c == b':' then some ([], cs) else if is_name_unit c then longer else none

abbrev starts_with_letter : List ℕ → Bool
starts_with_letter [] = false
starts_with_letter (c ∷ cs) = is_letter c

unfoldable pub match_operator : List ℕ → Option OperatorMatch
match_operator token =
    let signed = starts_with b'-' token in
    let named = if signed then drop 1 token else token in
    if starts_with_letter named
    then elim (split_name named) [
      | none ↦ none
      | some (name, rest) ↦ some (record { minus = signed; name = name; rest = rest })
    ]
    else none

-- `/^[^\s/]/.test(rest)`
abbrev pub looks_like_value : List ℕ → Bool
looks_like_value [] = false
looks_like_value (c ∷ cs) = not (is_space c) && not (c == b'/')

-- The variables that `readToken` writes.
pub record ReadState : Type 0 where
  pub accounts : List (List ℕ)
  pub sort : Option SearchSort
  pub limit : Option ℕ
  pub warnings : List (List ℕ)

-- What `readToken` returns: null, text or a filter.
pub data Reading : Type 0 where
  nothing free_text : Reading
  filter : SearchFilter → Reading

-- `if (!warnings.includes(warning)) warnings.push(warning)`
abbrev pub add_warning : List ℕ → List (List ℕ) → List (List ℕ)
add_warning warning warnings =
    if has_text warning warnings then warnings else warnings ++ warning ∷ []

abbrev pub warn : List ℕ → ReadState → ReadState
warn warning s = record s { warnings = s.warnings ++ warning ∷ [] }

abbrev pub ignore : List ℕ → ReadState → Reading × ReadState
ignore warning s = (Reading.nothing, warn warning s)

abbrev special_operators : List (List ℕ)
special_operators = map codes (
    "is" ∷ "has" ∷ "after" ∷ "since" ∷ "newer_than" ∷ "newer" ∷ "before" ∷ "until" ∷ "older_than"
    ∷ "older" ∷ "larger" ∷ "bigger" ∷ "smaller" ∷ "account" ∷ "window" ∷ "lane" ∷ "sort" ∷ "limit"
    ∷ [])

unfoldable pub sort_of : List ℕ → Option SearchSort
sort_of name =
    if is name (codes "smart")
    then some SearchSort.smart
    else if is name (codes "relevance")
    then some SearchSort.relevance
    else if is name (codes "recent") || is name (codes "date")
    then some SearchSort.recent
    else if is name (codes "oldest")
    then some SearchSort.oldest
    else if is name (codes "size")
    then some SearchSort.size
    else if is name (codes "sender")
    then some SearchSort.sender
    else none

-- `field.route ? field.route(normalized) : { kind: field.kind, value: normalized }`
unfoldable pub routed : TextFieldRule → List ℕ → Routed
routed rule value = elim rule.route [
  | none ↦ record { kind = rule.kind; value = rule.normalize value }
  | some route ↦ route (rule.normalize value)
]

-- The branch of `is:`.
unfoldable pub read_is : Platform → Bool → List ℕ → ReadState → Reading × ReadState
read_is platform negated value s = elim (map_is_flag platform value) [
  | none ↦ ignore (codes "unknown is:" ++ value ++ codes " operator; ignored") s
  | some mapped ↦ (Reading.filter (if negated then flip mapped else mapped), s)
]

-- The branch of `has:`.
unfoldable pub read_has : Platform → Bool → List ℕ → List ℕ → ReadState → Reading × ReadState
read_has platform negated value raw s =
    let v = platform.to_lower value in
    if is v (codes "attachment") || is v (codes "attachments") || is v (codes "file") || is v []
    then (Reading.filter (SearchFilter.has_attachment negated raw), s)
    else if is v (codes "noattachment") || is v (codes "noattachments")
    then (Reading.filter (SearchFilter.has_attachment (not negated) raw), s)
    else if is v (codes "body")
    then (Reading.filter (SearchFilter.has_body negated raw), s)
    else ignore (codes "unknown has:" ++ value ++ codes " operator; ignored") s

unfoldable pub read_date :
    DateOp → List ℕ → Bool → List ℕ → List ℕ → ReadState → Reading × ReadState
read_date op field negated value raw s =
    if is_valid_date value
    then (Reading.filter (SearchFilter.date op value negated raw), s)
    else ignore
        (codes "unparseable date \"" ++ value ++ codes "\" for " ++ field ++ codes ":; ignored") s

unfoldable pub read_size :
    Platform → List ℕ → Bool → List ℕ → List ℕ → ReadState → Reading × ReadState
read_size platform field negated value raw s = elim (parse_size_to_bytes platform value) [
  | none ↦
      ignore
        (codes "unparseable size \"" ++ value ++ codes "\" for " ++ field ++ codes ":; ignored") s
  | some n ↦
      let op = if is field (codes "smaller") then SizeOp.smaller else SizeOp.larger in
      (Reading.filter (SearchFilter.bytes op n negated raw), s)
]

unfoldable pub read_sort : Platform → List ℕ → ReadState → Reading × ReadState
read_sort platform value s = elim (sort_of (platform.to_lower value)) [
  | none ↦ ignore (codes "unknown sort \"" ++ value ++ codes "\"; ignored") s
  | some found ↦ (Reading.nothing, record s { sort = some found })
]

unfoldable pub read_limit : List ℕ → ReadState → Reading × ReadState
read_limit value s = elim (parse_positive value) [
  | none ↦ ignore (codes "invalid limit \"" ++ value ++ codes "\"; ignored") s
  | some n ↦ (Reading.nothing, record s { limit = some (min n 100) })
]

abbrev one_of : List ℕ → List (List ℕ) → Bool
one_of field names = has_text field names

-- The `switch` on the field.
unfoldable pub read_special :
    Platform → List ℕ → Bool → List ℕ → List ℕ → ReadState → Reading × ReadState
read_special platform field negated value raw s =
    if is field (codes "is")
    then read_is platform negated value s
    else if is field (codes "has")
    then read_has platform negated value raw s
    else if one_of field (codes "after" ∷ codes "since" ∷ codes "newer_than" ∷ codes "newer" ∷ [])
    then read_date DateOp.after field negated value raw s
    else if one_of field (codes "before" ∷ codes "until" ∷ codes "older_than" ∷ codes "older" ∷ [])
    then read_date DateOp.before field negated value raw s
    else if one_of field (codes "larger" ∷ codes "bigger" ∷ codes "smaller" ∷ [])
    then read_size platform field negated value raw s
    else if is field (codes "account")
    then (Reading.nothing, record s { accounts = s.accounts ++ value ∷ [] })
    else if one_of field (codes "window" ∷ codes "lane" ∷ [])
    then ignore (field ++ codes ": is no longer supported; use after: or before:") s
    else if is field (codes "sort")
    then read_sort platform value s
    else if is field (codes "limit")
    then read_limit value s
    else (Reading.free_text, s)

-- A token with a known operator.
unfoldable pub read_operator :
    Platform → List ℕ → Bool → List ℕ → List ℕ → ReadState → Reading × ReadState
read_operator platform field negated value raw s =
    if length value == 0 && not (is field (codes "has"))
    then ignore (codes "empty value for operator " ++ field ++ codes ":; ignored") s
    else elim (text_field_by_operator field (text_fields platform.to_lower)) [
      | none ↦ read_special platform field negated value raw s
      | some rule ↦
          let to = routed rule value in
          (Reading.filter (SearchFilter.text_filter to.kind to.value negated raw), s)
    ]

unfoldable pub is_known : Platform → List ℕ → Bool
is_known platform field = elim (text_field_by_operator field (text_fields platform.to_lower)) [
  | some rule ↦ true
  | none ↦ has_text field special_operators
]

abbrev pub unknown_operator : OperatorMatch → List ℕ → List ℕ
unknown_operator m token =
    codes "unknown operator " ++ m.name ++ codes ":; \"" ++ token ++ codes "\" searched as text"

unfoldable pub read_token : Platform → List ℕ → ReadState → Reading × ReadState
read_token platform token s = elim (match_operator token) [
  | none ↦ (Reading.free_text, s)
  | some m ↦
      if is_known platform (ascii_lower m.name)
      then read_operator platform (ascii_lower m.name) m.minus (trim (strip_quotes m.rest)) token s
      else (
        Reading.free_text,
        if looks_like_value m.rest
            then record s { warnings = add_warning (unknown_operator m token) s.warnings }
            else s,
      )
]
