-- ===== src/Search/Query/Parse.antt =====
-- apps/api/src/search/parse.ts: `parseQuery` over the tokens. A result is none where the code
-- would throw.
use supamail.Common.{ℕ, Bool, true, false, Option, none, some, List, [], ◌∷◌, ◌++◌, if◌then◌else◌}
use supamail.Common.Text.{codes}
use supamail.Search.Terms.{tokenize, TextTerms, is_or, parse_text_terms}
use supamail.Search.Fields.{SearchFilter, Members, raw_of, members_of, SearchSort, TextFilterKind}
use supamail.Search.Query.{Platform, trim, Reading, ReadState, read_token}
use supamail.Search.Query.Warnings.{warn_ignored_or, warn_text}

pub data QueryItem : Type 0 where
  filter_item : (token : List ℕ) (filter : SearchFilter) → QueryItem
  text_item or_item other_item : (token : List ℕ) → QueryItem

abbrev pub token_of : QueryItem → List ℕ
token_of (QueryItem.filter_item token f) = token
token_of (QueryItem.text_item token) = token
token_of (QueryItem.or_item token) = token
token_of (QueryItem.other_item token) = token

abbrev pub item_of : List ℕ → Reading → QueryItem
item_of token Reading.nothing = QueryItem.other_item token
item_of token Reading.free_text = QueryItem.text_item token
item_of token (Reading.filter f) = QueryItem.filter_item token f

abbrev pub add_member : Members → SearchFilter → Members
add_member Members.no_member next = Members.member next Members.no_member
add_member (Members.member f fs) next = Members.member f (add_member fs next)

-- `joinOr`
unfoldable pub join_or : SearchFilter → SearchFilter → SearchFilter
join_or (SearchFilter.or_filter filters negated raw) next =
    SearchFilter.or_filter (add_member filters next) false (raw ++ codes " OR " ++ raw_of next)
join_or previous next =
    SearchFilter.or_filter (Members.member previous (Members.member next Members.no_member)) false
      (raw_of previous ++ codes " OR " ++ raw_of next)

-- `filters.push(joinOr(filters.pop()!, next))`, which throws on an empty list.
unfoldable pub join_last : SearchFilter → List SearchFilter → Option (List SearchFilter)
join_last next [] = none
join_last next (f ∷ []) = some (join_or f next ∷ [])
join_last next (f ∷ g ∷ fs) = elim (join_last next (g ∷ fs)) [
  | none ↦ none
  | some joined ↦ some (f ∷ joined)
]

-- The variables of the loop over the items.
pub record LoopState : Type 0 where
  pub filters : List SearchFilter
  pub free_text_parts : List (List ℕ)
  pub join_next : Bool
  pub warnings : List (List ℕ)

abbrev pub are_filters : Option QueryItem → Option QueryItem → Bool
are_filters (some (QueryItem.filter_item t f)) (some (QueryItem.filter_item u g)) = true
are_filters _ _ = false

abbrev pub are_texts : Option QueryItem → Option QueryItem → Bool
are_texts (some (QueryItem.text_item t)) (some (QueryItem.text_item u)) = true
are_texts _ _ = false

abbrev token_beside : Option QueryItem → Option (List ℕ)
token_beside none = none
token_beside (some item) = some (token_of item)

-- The branch of an OR.
unfoldable pub read_or_item : Option QueryItem → List ℕ → Option QueryItem → LoopState → LoopState
read_or_item left token right s =
    if are_filters left right
    then record s { join_next = true }
    else if are_texts left right
    then record s { free_text_parts = s.free_text_parts ++ token ∷ [] }
    else record s {
      warnings =
          warn_ignored_or s.warnings
            (record { left = token_beside left; right = token_beside right } ∷ []) false;
    }

-- The branch of a filter.
unfoldable pub push_filter : SearchFilter → LoopState → Option LoopState
push_filter f s =
    if s.join_next
    then elim (join_last f s.filters) [
      | none ↦ none
      | some joined ↦ some (record s { filters = joined; join_next = false })
    ]
    else some (record s { filters = s.filters ++ f ∷ []; join_next = false })

unfoldable pub read_item :
    Option QueryItem → QueryItem → Option QueryItem → LoopState → Option LoopState
read_item left (QueryItem.or_item token) right s = some (read_or_item left token right s)
read_item left (QueryItem.filter_item token f) right s = push_filter f s
read_item left (QueryItem.text_item token) right s =
    some (record s { free_text_parts = s.free_text_parts ++ token ∷ []; join_next = false })
read_item left (QueryItem.other_item token) right s = some (record s { join_next = false })

abbrev pub first_item : List QueryItem → Option QueryItem
first_item [] = none
first_item (item ∷ items) = some item

unfoldable pub read_items : Option QueryItem → List QueryItem → LoopState → Option LoopState
read_items left [] s = some s
read_items left (item ∷ items) s = elim (read_item left item (first_item items) s) [
  | none ↦ none
  | some next ↦ read_items (some item) items next
]

pub record ParsedQuery : Type 0 where
  pub free_text : List ℕ
  pub text : TextTerms
  pub accounts : List (List ℕ)
  pub filters : List SearchFilter
  pub sort : Option SearchSort
  pub limit : Option ℕ
  pub warnings : List (List ℕ)

-- `parts.join(" ")`
unfoldable pub join_words : List (List ℕ) → List ℕ
join_words [] = []
join_words (word ∷ []) = word
join_words (word ∷ next ∷ words) = word ++ 32 ∷ join_words (next ∷ words)

abbrev pub all_members : List SearchFilter → List SearchFilter
all_members [] = []
all_members (f ∷ fs) = members_of f ++ all_members fs

-- The value of a filter of kind `body`, and whether it is negated.
unfoldable pub body_of : SearchFilter → Option (List ℕ × Bool)
body_of (SearchFilter.text_filter TextFilterKind.body value negated raw) = some (value, negated)
body_of _ = none

module _ (platform : Platform) where
  -- `.map((token) => …)`, which writes the state of `readToken`.
  unfoldable pub read_query_tokens : List (List ℕ) → ReadState → List QueryItem × ReadState
  read_query_tokens [] s = ([], s)
  read_query_tokens (token ∷ tokens) s =
      let here : Reading × ReadState =
        if is_or token then (Reading.nothing, s) else read_token platform token s in
      let item = if is_or token then QueryItem.or_item token else item_of token here.0 in
      let rest = read_query_tokens tokens here.1 in (item ∷ rest.0, rest.1)

  abbrev pub parse_terms : List ℕ → Option TextTerms
  parse_terms text = parse_text_terms platform.is_searchable text

  -- The body filters, whose text gets the warnings of free text.
  unfoldable pub body_warnings : List SearchFilter → List (List ℕ) → Option (List (List ℕ))
  body_warnings [] warnings = some warnings
  body_warnings (f ∷ fs) warnings = elim (body_of f) [
    | none ↦ body_warnings fs warnings
    | some (value, negated) ↦ elim (parse_terms value) [
      | none ↦ none
      | some terms ↦ body_warnings fs (warn_text warnings value terms true negated)
    ]
  ]

  abbrev pub start_reading : ReadState
  start_reading = record { accounts = []; sort = none; limit = none; warnings = [] }

  abbrev pub start_loop : List (List ℕ) → LoopState
  start_loop warnings = record {
    filters = [];
    free_text_parts = [];
    join_next = false;
    warnings = warnings;
  }

  -- What follows the loop.
  unfoldable pub finish_query : ReadState → LoopState → Option ParsedQuery
  finish_query reading s =
      let free_text = trim (join_words s.free_text_parts) in
      elim (parse_terms free_text) [
        | none ↦ none
        | some text ↦
            elim (body_warnings (all_members s.filters)
              (warn_text s.warnings free_text text false false)) [
                | none ↦ none
                | some warnings ↦ some (record {
                  free_text = free_text;
                  text = text;
                  accounts = reading.accounts;
                  filters = s.filters;
                  sort = reading.sort;
                  limit = reading.limit;
                  warnings = warnings;
                })
              ]
      ]

  -- The items of a query, with the state after the last token.
  unfoldable pub query_items : List ℕ → List QueryItem × ReadState
  query_items input = read_query_tokens (tokenize input) start_reading

  unfoldable pub parse_query : List ℕ → Option ParsedQuery
  parse_query input =
      let (items, reading) = query_items input in
      elim (read_items none items (start_loop reading.warnings)) [
        | none ↦ none
        | some s ↦ finish_query reading s
      ]
