-- ===== src/Search/Terms/Tokens.antt =====
-- What `tokenize` keeps of its input.
use supamail.Common.{
  ℕ, ◌≡◌, refl, sym, ap, ◌∙◌, ◌≢◌, Bool, true, false, ◌&&◌, not, none, some, List, [], ◌∷◌, ◌++◌,
  append-nil, append_assoc, flatten, flatten-append, All, All-append, ◌==◌, if◌then◌else◌,
}
use supamail.Common.Text.{is_space}
use supamail.Search.Terms.{Open, opened, closed, tokenize_from, tokenize}

-- The input without the white space outside quotes; a quote opens or closes.
pub kept : Bool → List ℕ → List ℕ
kept in_quotes [] = []
kept in_quotes (c ∷ cs) =
    let rest = kept (if c == 34 then not in_quotes else in_quotes) cs in
    if not in_quotes && is_space c then rest else c ∷ rest

flatten-closed : (token : Open) → flatten (closed token) ≡ opened token
flatten-closed none = refl
flatten-closed (some t) = append-nil t

flatten-break :
    (token : Open) (b q : Bool) (c : ℕ) (cs : List ℕ)
    → ((t : Open) → flatten (tokenize_from t q cs) ≡ opened t ++ kept q cs)
    → flatten (
        if b
        then closed token ++ tokenize_from (if b then none else some (opened token ++ c ∷ [])) q cs
        else tokenize_from (if b then none else some (opened token ++ c ∷ [])) q cs)
      ≡ opened token ++ (if b then kept q cs else c ∷ kept q cs)
flatten-break token true q c cs ih =
    flatten-append (closed token) (tokenize_from none q cs)
    ∙ ap (λ xs. flatten (closed token) ++ xs) (ih none)
    ∙ ap (λ xs. xs ++ kept q cs) (flatten-closed token)
flatten-break token false q c cs ih =
    ih (some (opened token ++ c ∷ [])) ∙ append_assoc (opened token) (c ∷ []) (kept q cs)

tokenize_from-kept :
    (token : Open) (q : Bool) (cs : List ℕ)
    → flatten (tokenize_from token q cs) ≡ opened token ++ kept q cs
unfolding tokenize_from kept
tokenize_from-kept token q [] = flatten-closed token ∙ sym (append-nil (opened token))
tokenize_from-kept token q (c ∷ cs) =
    flatten-break token (not q && is_space c) (if c == 34 then not q else q) c cs
      (λ t. tokenize_from-kept t (if c == 34 then not q else q) cs)

abbrev NotEmpty : List ℕ → Type 0
NotEmpty token = token ≢ []

append-NotEmpty : (xs : List ℕ) (c : ℕ) → NotEmpty (xs ++ c ∷ [])
append-NotEmpty [] c e = cc
append-NotEmpty (x ∷ xs) c e = cc

break-NotEmpty :
    (token : Open) (b q : Bool) (c : ℕ) (cs : List ℕ)
    → ((t : Open) → All NotEmpty (closed t) → All NotEmpty (tokenize_from t q cs))
    → All NotEmpty (closed token)
    → All NotEmpty (
        if b
        then closed token ++ tokenize_from (if b then none else some (opened token ++ c ∷ [])) q cs
        else tokenize_from (if b then none else some (opened token ++ c ∷ [])) q cs)
break-NotEmpty token true q c cs ih h =
    All-append NotEmpty (closed token) (tokenize_from none q cs) h (ih none tt)
break-NotEmpty token false q c cs ih h =
    ih (some (opened token ++ c ∷ [])) (append-NotEmpty (opened token) c, tt)

tokenize_from-NotEmpty :
    (token : Open) (q : Bool) (cs : List ℕ)
    → All NotEmpty (closed token)
    → All NotEmpty (tokenize_from token q cs)
unfolding tokenize_from
tokenize_from-NotEmpty token q [] h = h
tokenize_from-NotEmpty token q (c ∷ cs) h =
    break-NotEmpty token (not q && is_space c) (if c == 34 then not q else q) c cs
      (λ t. tokenize_from-NotEmpty t (if c == 34 then not q else q) cs) h

-- `tokenize` drops the white space outside quotes and nothing else: joined without a separator, its
-- tokens are the input without that white space, in its order. No token is empty.
pub tokenize_lem :
    (input : List ℕ)
    → (flatten (tokenize input) ≡ kept false input) × All (λ token. token ≢ []) (tokenize input)
unfolding tokenize
tokenize_lem input =
    (tokenize_from-kept none false input, tokenize_from-NotEmpty none false input tt)
