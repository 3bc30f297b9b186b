-- ===== src/Search/Terms/Groups.antt =====
-- What `parseTextTerms` makes of the tokens.
use supamail.Common.{
  ℕ, ◌+◌, ◌≡◌, refl, sym, ◌≢◌, subst, inl, Bool, true, false, ◌&&◌, not, Option, none, some, List,
  [], ◌∷◌, ◌++◌, append-nil, append_assoc, length, length-append, flatten, sum_of, All, ltb, arith,
  if◌then◌else◌,
}
use supamail.Search.Terms.{
  tokenize, TextTerm, IgnoredOr, TextTerms, is_or, is_negated, term_of, TermState, start_terms,
  report, read_or, read_term, head_of, read_token, read_tokens, parse_text_terms,
}
use supamail.Search.Terms.State.{ors, joins, Inv, one_if, read_or-Inv, read_term-Inv, false≢true}

module _ (is_searchable : List ℕ → Bool) where
  -- What a token gives: a term that must match, or one that must not.
  abbrev searches : List ℕ → Bool
  searches raw = is_searchable (term_of raw).text

  abbrev pub included : List ℕ → List TextTerm
  included raw =
      if is_or raw then [] else one_if (not (is_negated raw) && searches raw) (term_of raw)

  abbrev pub excluded : List ℕ → List TextTerm
  excluded raw = if is_or raw then [] else one_if (is_negated raw && searches raw) (term_of raw)

  abbrev pub all_of : (List ℕ → List TextTerm) → List (List ℕ) → List TextTerm
  all_of f [] = []
  all_of f (raw ∷ tokens) = f raw ++ all_of f tokens

  read_token-Inv :
      (i x : List TextTerm) (n : ℕ) (before : Option (List ℕ)) (raw : List ℕ)
      (after : Option (List ℕ)) (s : TermState)
      → Inv i x n s
      → (next : TermState) × (read_token is_searchable before raw after s ≡ some next)
        × Inv (i ++ included raw) (x ++ excluded raw) (n + (if is_or raw then 1 else 0)) next
  unfolding read_token
  read_token-Inv i x n before raw after s h = or_or_not (is_or raw)
    where
      or_or_not :
          (b : Bool)
          → (next : TermState) × ((if b
                then some (read_or (record { left = before; right = after }) s)
                else read_term (is_negated raw) (searches raw) (term_of raw) s)
              ≡ some next)
            × Inv
                (i
                  ++ (if b
                      then []
                      else one_if (not (is_negated raw) && searches raw) (term_of raw)))
                (x ++ (if b then [] else one_if (is_negated raw && searches raw) (term_of raw)))
                (n + (if b then 1 else 0))
                next
      or_or_not true =
          let found : IgnoredOr = record { left = before; right = after } in
          (
            read_or found s,
            refl,
            subst (λ l. Inv l (x ++ []) (n + 1) (read_or found s)) (sym (append-nil i))
                (subst (λ l. Inv i l (n + 1) (read_or found s)) (sym (append-nil x))
                  (read_or-Inv i x n found s h)),
          )
      or_or_not false =
          let (next, e, k) =
            read_term-Inv i x n (is_negated raw) (searches raw) (term_of raw) s h in
          (
            next,
            e,
            subst
                (λ m.
                  Inv (i ++ one_if (not (is_negated raw) && searches raw) (term_of raw))
                    (x ++ one_if (is_negated raw && searches raw) (term_of raw)) m next)
                (omega arith) k,
          )

  read_tokens-Inv :
      (i x : List TextTerm) (n : ℕ) (before : Option (List ℕ)) (tokens : List (List ℕ))
      (s : TermState)
      → Inv i x n s
      → (last : TermState) × (read_tokens is_searchable before tokens s ≡ some last)
        × Inv (i ++ all_of included tokens) (x ++ all_of excluded tokens) (n + ors tokens) last
  unfolding read_tokens
  read_tokens-Inv i x n before [] s h = (
    s,
    refl,
    subst (λ l. Inv l (x ++ []) (n + 0) s) (sym (append-nil i))
        (subst (λ l. Inv i l (n + 0) s) (sym (append-nil x))
          (subst (λ m. Inv i x m s) (omega arith) h)),
  )
  read_tokens-Inv i x n before (raw ∷ tokens) s h =
      let (next, e, k) = read_token-Inv i x n before raw (head_of tokens) s h in
      let (last, f, l) =
        read_tokens-Inv (i ++ included raw) (x ++ excluded raw) (n + (if is_or raw then 1 else 0))
          (some raw) tokens next k in
      (
        last,
        subst
            (λ o.
              elim o [ none ↦ none | some t ↦ read_tokens is_searchable (some raw) tokens t ]
              ≡ some last)
            (sym e) f,
        subst (λ z. Inv z (x ++ all_of excluded (raw ∷ tokens)) (n + ors (raw ∷ tokens)) last)
            (append_assoc i (included raw) (all_of included tokens))
            (subst
              (λ z.
                Inv ((i ++ included raw) ++ all_of included tokens) z (n + ors (raw ∷ tokens)) last)
              (append_assoc x (excluded raw) (all_of excluded tokens))
              (subst
                (λ m.
                  Inv ((i ++ included raw) ++ all_of included tokens)
                    ((x ++ excluded raw) ++ all_of excluded tokens) m last)
                (omega arith) l)),
      )

  -- `parseTextTerms` never throws. Its groups hold the searchable tokens that are no OR and not
  -- negated, its exclusions the negated ones, both in the order of the input, each once; no group is
  -- empty. Every OR is accounted for: it joined a term to a group, or it is reported as ignored.
  pub parse_text_terms_lem :
      (input : List ℕ)
      → (terms : TextTerms) × (parse_text_terms is_searchable input ≡ some terms)
        × (flatten terms.groups ≡ all_of included (tokenize input))
        × (terms.negative ≡ all_of excluded (tokenize input))
        × All (λ g. g ≢ []) terms.groups
        × (length terms.ignored_or + sum_of joins terms.groups ≡ ors (tokenize input))
  unfolding parse_text_terms
  parse_text_terms_lem input =
      let (s, e, h) = read_tokens-Inv [] [] 0 none (tokenize input) start_terms begin in
      let finish : TermState → TextTerms = λ t. record {
        has_text = ltb 0 (length (tokenize input));
        groups = t.groups;
        negative = t.negative;
        ignored_or = t.ignored_or ++ report t.pending_or;
      } in
      (
        finish s,
        subst (λ o. elim o [ none ↦ none | some t ↦ some (finish t) ] ≡ some (finish s)) (sym e)
            refl,
        h.grouped,
        h.negated,
        h.full,
        omega (arith, h.counted, length-append s.ignored_or (report s.pending_or)),
      )
    where
      begin : Inv [] [] 0 start_terms
      begin = record {
        grouped = refl;
        negated = refl;
        counted = omega arith;
        full = tt;
        joinable = λ k. absurd (false≢true k);
        pending = inl refl;
      }
