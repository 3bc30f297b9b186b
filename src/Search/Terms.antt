-- ===== src/Search/Terms.antt =====
-- apps/api/src/search/parse.ts: `tokenize` and `parseTextTerms`. A text is the list of its UTF-16 code
-- units; `is_searchable` is the platform's `/[\p{L}\p{N}]/u.test`.
pub mod Tokens
pub mod State
pub mod Groups
mod Tests
use supamail.Common.{
  ℕ, ◌-◌, Bool, true, false, ◌&&◌, ◌||◌, not, Option, none, some, List, [], ◌∷◌, ◌++◌, map, length,
  take, drop, ltb, leb, ◌==◌, if◌then◌else◌,
}
use supamail.Common.Text.{is_space, starts_with, ends_with}

-- The two nested loops of `tokenize`: none between tokens, else the token so far.
abbrev pub Open : Type 0
Open = Option (List ℕ)

abbrev pub opened : Open → List ℕ
opened none = []
opened (some token) = token

abbrev pub closed : Open → List (List ℕ)
closed none = []
closed (some token) = token ∷ []

unfoldable pub tokenize_from : Open → Bool → List ℕ → List (List ℕ)
tokenize_from token in_quotes [] = closed token
tokenize_from token in_quotes (c ∷ cs) =
    let is_break = not in_quotes && is_space c in
    let rest =
      tokenize_from (if is_break then none else some (opened token ++ c ∷ []))
        (if c == 34 then not in_quotes else in_quotes) cs in
    if is_break then closed token ++ rest else rest

unfoldable pub tokenize : List ℕ → List (List ℕ)
tokenize input = tokenize_from none false input

pub record TextTerm : Type 0 where
  pub text : List ℕ
  pub phrase : Bool

pub record IgnoredOr : Type 0 where
  pub left : Option (List ℕ)
  pub right : Option (List ℕ)

pub record TextTerms : Type 0 where
  pub has_text : Bool
  pub groups : List (List TextTerm)
  pub negative : List TextTerm
  pub ignored_or : List IgnoredOr

-- `raw.toLowerCase() === "or"`
abbrev pub is_or : List ℕ → Bool
is_or (o ∷ r ∷ []) = (o == 111 || o == 79) && (r == 114 || r == 82)
is_or _ = false

abbrev quote_to_space : ℕ → ℕ
quote_to_space c = if c == 34 then 32 else c

-- `.replace(/\s+/g, " ")`; `after_space` is inside a match.
unfoldable pub squeeze : Bool → List ℕ → List ℕ
squeeze after_space [] = []
squeeze after_space (c ∷ cs) =
    let rest = squeeze (is_space c) cs in
    if is_space c then if after_space then rest else 32 ∷ rest else c ∷ rest

unfoldable pub trim_start : List ℕ → List ℕ
trim_start [] = []
trim_start (c ∷ cs) = let rest = trim_start cs in if is_space c then rest else c ∷ cs

unfoldable pub trim_end : List ℕ → List ℕ
trim_end [] = []
trim_end (c ∷ cs) =
    let rest = trim_end cs in if is_space c && length rest == 0 then [] else c ∷ rest

abbrev pub is_negated : List ℕ → Bool
is_negated raw = starts_with 45 raw

abbrev pub body_of : List ℕ → List ℕ
body_of raw = if is_negated raw then drop 1 raw else raw

abbrev pub is_phrase : List ℕ → Bool
is_phrase body = starts_with 34 body && ends_with 34 body && leb 2 (length body)

-- The term of a token that is no OR.
abbrev pub term_of : List ℕ → TextTerm
term_of raw =
    let body = body_of raw in
    record {
      text = trim_end (
          trim_start (
            squeeze false (
              map quote_to_space
                (if is_phrase body then take (length body - 2) (drop 1 body) else body))));
      phrase = is_phrase body;
    }

-- The variables of the loop.
pub record TermState : Type 0 where
  pub groups : List (List TextTerm)
  pub negative : List TextTerm
  pub ignored_or : List IgnoredOr
  pub previous_groupable : Bool
  pub pending_or : Option IgnoredOr

abbrev pub start_terms : TermState
start_terms = record {
  groups = [];
  negative = [];
  ignored_or = [];
  previous_groupable = false;
  pending_or = none;
}

abbrev pub report : Option IgnoredOr → List IgnoredOr
report none = []
report (some ignored) = ignored ∷ []

-- The branch of an OR.
unfoldable pub read_or : IgnoredOr → TermState → TermState
read_or found s = elim s.pending_or [
  | some pending ↦ record s {
    ignored_or = s.ignored_or ++ pending ∷ found ∷ [];
    pending_or = none;
    previous_groupable = false;
  }
  | none ↦
      if s.previous_groupable
      then record s { pending_or = some found; previous_groupable = false }
      else record s { ignored_or = s.ignored_or ++ found ∷ []; previous_groupable = false }
]

-- `groups[groups.length - 1].push(term)`, which throws without a group.
unfoldable pub push_last : TextTerm → List (List TextTerm) → Option (List (List TextTerm))
push_last term [] = none
push_last term (group ∷ []) = some ((group ++ term ∷ []) ∷ [])
push_last term (group ∷ next ∷ groups) = elim (push_last term (next ∷ groups)) [
  | none ↦ none
  | some rest ↦ some (group ∷ rest)
]

unfoldable pub push_group :
    TextTerm → Option IgnoredOr → List (List TextTerm) → Option (List (List TextTerm))
push_group term none groups = some (groups ++ (term ∷ []) ∷ [])
push_group term (some pending) groups = push_last term groups

-- The rest of a round, for a token that is no OR.
unfoldable pub read_term : Bool → Bool → TextTerm → TermState → Option TermState
read_term negated searchable term s =
    if not negated && searchable
    then elim (push_group term s.pending_or s.groups) [
      | none ↦ none
      | some groups ↦
          some (record s { groups = groups; pending_or = none; previous_groupable = true })
    ]
    else some (record s {
      ignored_or = s.ignored_or ++ report s.pending_or;
      negative = if negated && searchable then s.negative ++ term ∷ [] else s.negative;
      pending_or = none;
      previous_groupable = false;
    })

abbrev pub head_of : List (List ℕ) → Option (List ℕ)
head_of [] = none
head_of (t ∷ ts) = some t

module _ (is_searchable : List ℕ → Bool) where
  unfoldable pub read_token :
      Option (List ℕ) → List ℕ → Option (List ℕ) → TermState → Option TermState
  read_token before raw after s =
      if is_or raw
      then some (read_or (record { left = before; right = after }) s)
      else read_term (is_negated raw) (is_searchable (term_of raw).text) (term_of raw) s

  -- The loop, with the token before; none where the code throws.
  unfoldable pub read_tokens : Option (List ℕ) → List (List ℕ) → TermState → Option TermState
  read_tokens before [] s = some s
  read_tokens before (raw ∷ tokens) s = elim (read_token before raw (head_of tokens) s) [
    | none ↦ none
    | some next ↦ read_tokens (some raw) tokens next
  ]

  unfoldable pub parse_text_terms : List ℕ → Option TextTerms
  parse_text_terms input = elim (read_tokens none (tokenize input) start_terms) [
    | none ↦ none
    | some s ↦ some (record {
      has_text = ltb 0 (length (tokenize input));
      groups = s.groups;
      negative = s.negative;
      ignored_or = s.ignored_or ++ report s.pending_or;
    })
  ]
