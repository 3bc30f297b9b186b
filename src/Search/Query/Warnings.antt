-- ===== src/Search/Query/Warnings.antt =====
-- apps/api/src/search/parse.ts: the warnings about text and about an OR that joined nothing.
use supamail.Common.{
  ℕ, Bool, ◌&&◌, Option, none, some, List, [], ◌∷◌, ◌++◌, length, ◌==◌, if◌then◌else◌,
}
use supamail.Common.Text.{codes}
use supamail.Search.Terms.{TextTerms, IgnoredOr}
use supamail.Search.Query.{add_warning}

-- `token(value, edge)`
abbrev beside : Option (List ℕ) → List ℕ → List ℕ
beside none edge = edge
beside (some value) edge = codes "`" ++ value ++ codes "`"

-- `ignoredOrWarning`; `in_body` is `field === "body"`.
unfoldable pub ignored_or_warning : IgnoredOr → Bool → List ℕ
ignored_or_warning found in_body =
    if in_body
    then codes "OR ignored in body: between "
      ++ beside found.left (codes "its start")
      ++ codes " and "
      ++ beside found.right (codes "its end")
      ++ codes "; OR joins two words or quoted phrases"
    else codes "OR ignored between "
      ++ beside found.left (codes "the start")
      ++ codes " and "
      ++ beside found.right (codes "the end")
      ++ codes "; OR joins two operators (from:a OR from:b) or two words"

unfoldable pub warn_ignored_or : List (List ℕ) → List IgnoredOr → Bool → List (List ℕ)
warn_ignored_or warnings [] in_body = warnings
warn_ignored_or warnings (found ∷ ignored) in_body =
    warn_ignored_or (add_warning (ignored_or_warning found in_body) warnings) ignored in_body

abbrev nothing_searchable : TextTerms → Bool
nothing_searchable terms =
    terms.has_text
    && length terms.groups == 0
    && length terms.negative == 0
    && length terms.ignored_or == 0

abbrev not_searchable : List ℕ → Bool → Bool → List ℕ
not_searchable text in_body negated =
    (if in_body then (if negated then codes "-" else []) ++ codes "body: " else [])
    ++ codes "`"
    ++ text
    ++ codes "` has no searchable word and "
    ++ (if negated then codes "excludes nothing" else codes "matches nothing")

unfoldable pub warn_text : List (List ℕ) → List ℕ → TextTerms → Bool → Bool → List (List ℕ)
warn_text warnings text terms in_body negated =
    let told = warn_ignored_or warnings terms.ignored_or in_body in
    if nothing_searchable terms
    then add_warning (not_searchable text in_body negated) told
    else told
