-- ===== src/Search/Terms/Tests.antt =====
-- Runs of the free-text grammar, and its theorems at these inputs.
use supamail.Common.{
  ℕ, ◌+◌, ◌≡◌, ◌≢◌, refl, Bool, true, false, some, List, [], ◌∷◌, length, flatten, sum_of, All, ltb,
}
use supamail.Common.Text.{codes, is_space}
use supamail.Search.Terms.{
  tokenize_from, tokenize, TextTerm, TextTerms, squeeze, trim_start, trim_end, read_or, push_last,
  push_group, read_term, read_token, read_tokens, parse_text_terms,
}
use supamail.Search.Terms.Tokens.{kept, tokenize_lem}
use supamail.Search.Terms.State.{ors, joins}
use supamail.Search.Terms.Groups.{included, excluded, all_of, parse_text_terms_lem}

-- Any text that is not empty counts as searchable.
abbrev not_empty : List ℕ → Bool
not_empty text = ltb 0 (length text)

ready : Unit {0}
unfolding is_space tokenize_from tokenize squeeze trim_start trim_end read_or push_last push_group
    read_term read_token read_tokens parse_text_terms
ready = tt

quoted_span : tokenize (codes " a \"b c\"d  e") ≡ codes "a" ∷ codes "\"b c\"d" ∷ codes "e" ∷ []
unfolding ready
quoted_span = refl

abbrev word : List ℕ → TextTerm
word text = record { text = text; phrase = false }

abbrev query : List ℕ
query = codes "a or b -c OR d"

parsed :
    parse_text_terms not_empty query
    ≡ some (record {
      has_text = true;
      groups = (word (codes "a") ∷ word (codes "b") ∷ []) ∷ (word (codes "d") ∷ []) ∷ [];
      negative = word (codes "c") ∷ [];
      ignored_or = record { left = some (codes "-c"); right = some (codes "d") } ∷ [];
    })
unfolding ready
parsed = refl

tokenize_lem_example :
    (flatten (tokenize query) ≡ kept false query) × All (λ token. token ≢ []) (tokenize query)
tokenize_lem_example = tokenize_lem query

parse_text_terms_lem_example :
    (terms : TextTerms) × (parse_text_terms not_empty query ≡ some terms)
    × (flatten terms.groups ≡ all_of not_empty (included not_empty) (tokenize query))
    × (terms.negative ≡ all_of not_empty (excluded not_empty) (tokenize query))
    × All (λ g. g ≢ []) terms.groups
    × (length terms.ignored_or + sum_of joins terms.groups ≡ ors (tokenize query))
parse_text_terms_lem_example = parse_text_terms_lem not_empty query
