-- ===== src/Threading/MessageId.antt =====
-- apps/api/src/threading.ts: `unfold`, `rejectInternalCfws`, `canonicalizeMessageId` and the two
-- regular expressions of a message id. A text is the list of its UTF-16 code units.
pub mod Scan
pub mod Tokens
use supamail.Common.{
  ℕ, zero, suc, ◌+◌, ◌-◌, Bool, true, false, ◌&&◌, ◌||◌, not, Option, none, some, List, [], ◌∷◌,
  ◌++◌, length, take, drop, ltb, leb, ◌==◌, if◌then◌else◌,
}
use supamail.Common.Text.{is_space}

abbrev pub max_message_id_chars : ℕ
max_message_id_chars = 998

-- `[ \t]`
abbrev is_blank_unit : ℕ → Bool
is_blank_unit c = c == 32 || c == 9

abbrev starts_blank : List ℕ → Bool
starts_blank [] = false
starts_blank (c ∷ cs) = is_blank_unit c

abbrev starts_feed_blank : List ℕ → Bool
starts_feed_blank [] = false
starts_feed_blank (c ∷ cs) = c == 10 && starts_blank cs

-- Where a scan by `/\r?\n[ \t]+/g` stands: outside a match, before its line feed, or in its blanks.
pub data Fold : Type 0 where
  text line_feed blanks : Fold

-- What a unit outside a match becomes, and where the scan then stands.
abbrev unfold_text : ℕ → List ℕ → Fold × List ℕ
unfold_text c cs =
    if c == 10 && starts_blank cs
    then (blanks, 32 ∷ [])
    else if c == 13 && starts_feed_blank cs
    then (line_feed, 32 ∷ [])
    else (text, c ∷ [])

abbrev unfold_unit : Fold → ℕ → List ℕ → Fold × List ℕ
unfold_unit text c cs = unfold_text c cs
unfold_unit line_feed c cs = (blanks, [])
unfold_unit blanks c cs = if is_blank_unit c then (blanks, []) else unfold_text c cs

unfoldable pub unfold_from : Fold → List ℕ → List ℕ
unfold_from at [] = []
unfold_from at (c ∷ cs) = let (next, out) = unfold_unit at c cs in out ++ unfold_from next cs

-- `unfold`: every folded line break becomes one space.
abbrev pub unfold_header : List ℕ → List ℕ
unfold_header = unfold_from text

pub record Quoting : Type 0 where
  pub quoted : Bool
  pub domain_literal : Bool
  pub escaped : Bool

abbrev unquoted : Quoting
unquoted = record { quoted = false; domain_literal = false; escaped = false }

-- One round of `rejectInternalCfws`; `none` where it returns null.
unfoldable pub cfws_unit : Quoting → ℕ → Option Quoting
cfws_unit s c =
    if s.escaped
    then some (record s { escaped = false })
    else if c == 92
    then some (record s { escaped = true })
    else if not s.domain_literal && c == 34
    then some (record s { quoted = not s.quoted })
    else if not s.quoted && c == 91
    then (if s.domain_literal then none else some (record s { domain_literal = true }))
    else if not s.quoted && c == 93
    then (if s.domain_literal then some (record s { domain_literal = false }) else none)
    else if not s.quoted && not s.domain_literal && (c == 40 || c == 41 || is_space c)
    then none
    else some s

abbrev prepend : ℕ → Option (List ℕ) → Option (List ℕ)
prepend c none = none
prepend c (some cs) = some (c ∷ cs)

unfoldable pub cfws_from : Quoting → List ℕ → Option (List ℕ)
cfws_from s [] = if s.quoted || s.domain_literal || s.escaped then none else some []
cfws_from s (c ∷ cs) = elim (cfws_unit s c) [ none ↦ none | some t ↦ prepend c (cfws_from t cs) ]

unfoldable pub reject_internal_cfws : List ℕ → Option (List ℕ)
reject_internal_cfws = cfws_from unquoted

-- The character class of `DOT_ATOM_TEXT`.
unfoldable pub is_atext : ℕ → Bool
is_atext c =
    (leb 65 c && leb c 90)
    || (leb 97 c && leb c 122)
    || (leb 48 c && leb c 57)
    || c == 33
    || (leb 35 c && leb c 39)
    || c == 42
    || c == 43
    || c == 45
    || c == 47
    || c == 61
    || c == 63
    || (leb 94 c && leb c 96)
    || (leb 123 c && leb c 126)

-- `DOT_ATOM_TEXT`; `open_atom` says that an atom must go on.
unfoldable pub dot_atom_from : Bool → List ℕ → Bool
dot_atom_from open_atom [] = not open_atom
dot_atom_from open_atom (c ∷ cs) =
    let is_dot = c == 46 in
    (is_atext c || (is_dot && not open_atom)) && dot_atom_from (not (is_atext c)) cs

abbrev pub is_dot_atom : List ℕ → Bool
is_dot_atom = dot_atom_from true

-- `DOMAIN_LITERAL` after its opening bracket.
unfoldable pub literal_from : Bool → Bool → List ℕ → Bool
literal_from started is_escaped [] = false
literal_from started is_escaped (c ∷ cs) =
    let rest = literal_from true (not is_escaped && c == 92) cs in
    if is_escaped
    then leb c 127 && rest
    else if c == 93
    then started && length cs == 0
    else not (c == 91 || c == 13 || c == 10) && rest

unfoldable pub is_domain_literal : List ℕ → Bool
is_domain_literal [] = false
is_domain_literal (c ∷ cs) = c == 91 && literal_from false false cs

-- `.` of a regular expression.
abbrev is_line_end : ℕ → Bool
is_line_end c = c == 10 || c == 13 || c == 8232 || c == 8233

abbrev starts_literal : List ℕ → Bool
starts_literal [] = false
starts_literal (c ∷ cs) = not (is_line_end c)

-- `.replace(/\\(.)/g, "$1")`; `taken` says that the unit before was the backslash of a match.
unfoldable pub unescape_from : Bool → List ℕ → List ℕ
unescape_from taken [] = []
unescape_from taken (c ∷ cs) =
    let opens = not taken && c == 92 && starts_literal cs in
    (if opens then [] else c ∷ []) ++ unescape_from opens cs

-- The state of the second loop of `canonicalizeMessageId`; `separator` is none for -1.
pub record Parts : Type 0 where
  pub quoting : Quoting
  pub separator : Option ℕ

unfoldable pub parts_unit : ℕ → Parts → ℕ → Option Parts
parts_unit index p c =
    let s = p.quoting in
    if s.escaped
    then some (record p { quoting = record s { escaped = false } })
    else if c == 92 && (s.quoted || s.domain_literal)
    then some (record p { quoting = record s { escaped = true } })
    else if not s.domain_literal && c == 34
    then some (record p { quoting = record s { quoted = not s.quoted } })
    else if not s.quoted && c == 91
    then (if s.domain_literal
        then none
        else some (record p { quoting = record s { domain_literal = true } }))
    else if not s.quoted && c == 93
    then (if s.domain_literal
        then some (record p { quoting = record s { domain_literal = false } })
        else none)
    else if (c == 60 || c == 62) && not s.quoted && not s.domain_literal
    then none
    else if c == 64 && not s.quoted && not s.domain_literal
    then elim p.separator [ none ↦ some (record p { separator = some index }) | some _ ↦ none ]
    else some p

unfoldable pub parts_from : ℕ → Parts → List ℕ → Option Parts
parts_from index p [] = some p
parts_from index p (c ∷ cs) = elim (parts_unit index p c) [
  | none ↦ none
  | some q ↦ parts_from (suc index) q cs
]

abbrev starts_quote : List ℕ → Bool
starts_quote [] = false
starts_quote (c ∷ cs) = c == 34

abbrev ends_quote : List ℕ → Bool
ends_quote [] = false
ends_quote (c ∷ []) = c == 34
ends_quote (c ∷ d ∷ ds) = ends_quote (d ∷ ds)

abbrev has_line_break : List ℕ → Bool
has_line_break [] = false
has_line_break (c ∷ cs) = c == 13 || c == 10 || has_line_break cs

-- The local part: a quoted dot-atom loses its quotes.
unfoldable pub canonical_local : List ℕ → Option (List ℕ)
canonical_local local =
    let inner = unescape_from false (take (length local - 2) (drop 1 local)) in
    if starts_quote local && ends_quote local && leb 2 (length local)
    then if is_dot_atom inner then some inner else if has_line_break inner then none else some local
    else if is_dot_atom local
    then some local
    else none

unfoldable pub join_parts : List ℕ → List ℕ → Option (List ℕ)
join_parts local domain = elim (canonical_local local) [
  | none ↦ none
  | some l ↦
      if is_dot_atom domain || is_domain_literal domain then some (l ++ 64 ∷ domain) else none
]

-- The checks after the loop, and the two slices.
unfoldable pub split_at_separator : List ℕ → Parts → Option (List ℕ)
split_at_separator compact p = elim p.separator [
  | none ↦ none
  | some at ↦
      if p.quoting.quoted
        || p.quoting.domain_literal
        || p.quoting.escaped
        || at == 0
        || suc at == length compact
      then none
      else join_parts (take at compact) (drop (suc at) compact)
]

unfoldable pub canonicalize_compact : List ℕ → Option (List ℕ)
canonicalize_compact compact =
    if length compact == 0 || ltb max_message_id_chars (length compact) || has_line_break compact
    then none
    else elim (parts_from 0 (record { quoting = unquoted; separator = none }) compact) [
      | none ↦ none
      | some p ↦ split_at_separator compact p
    ]

unfoldable pub canonicalize_message_id : List ℕ → Option (List ℕ)
canonicalize_message_id payload =
    if ltb max_message_id_chars (length payload)
    then none
    else elim (reject_internal_cfws (unfold_header payload)) [
      | none ↦ none
      | some compact ↦ canonicalize_compact compact
    ]
