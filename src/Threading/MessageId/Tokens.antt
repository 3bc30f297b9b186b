-- ===== src/Threading/MessageId/Tokens.antt =====
-- What a scan for message ids returns.
use supamail.Common.{
  ℕ, zero, suc, ◌-◌, ◌≤◌, ◌<◌, ◌≡◌, ◌≢◌, refl, sym, ◌∙◌, subst, ◌↔◌, ◌⊎◌, inl, inr, Bool, true,
  false, Option, none, some, List, [], ◌∷◌, ◌++◌, length, length-drop, take, drop, sum_of, All,
  All-append, Bool-cases, ltb, ltb→lt, lt→ltb, ◌==◌, arith, if◌then◌else◌,
}
use supamail.Common.Keys.{In, In-append}
use supamail.Common.Text.{same_codes, same_codes_iff}
use supamail.Threading.MessageId.{canonicalize_message_id, unfold_header}
use supamail.Threading.MessageId.Scan.{
  has_token, ScanState, scan_start, scan_outside, push_token, scan_inside, scan_unit, scan_text,
  scan_values, Keep, keep_first, keep_last, keep_tokens, scan_message_id_tokens, ScanResult,
  max_message_id_header_chars,
}

-- A token is what `canonicalizeMessageId` makes of some payload.
abbrev pub IsCanonical : List ℕ → Type 0
IsCanonical token = (payload : List ℕ) × (canonicalize_message_id payload ≡ some token)

abbrev pub IsDistinct : {A : Type 0} → List A → Type 0
IsDistinct [] = Unit {0}
IsDistinct (x ∷ xs) = (¬ In x xs) × IsDistinct xs

has_token_iff : (ts : List (List ℕ)) (t : List ℕ) → (has_token ts t ≡ true) ↔ In t ts
unfolding has_token
has_token_iff [] t = (λ e. cc, λ h. absurd h)
has_token_iff (x ∷ xs) t = (
  λ e. elim (Bool-cases (same_codes x t)) [
    | inl same ↦ inl (sym ((same_codes_iff x t).0 same))
    | inr other ↦ inr ((has_token_iff xs t).0 (rw other at e))
  ],
  λ h. elim h [
    | inl same ↦ let here = (same_codes_iff x t).1 (sym same) in rw here refl
    | inr later ↦ elim (Bool-cases (same_codes x t)) [
      | inl same ↦ rw same refl
      | inr other ↦ rw other ((has_token_iff xs t).1 later)
    ]
  ],
)

module _ {A : Type 0} where
  IsDistinct-append :
      (xs : List A) (x : A) → IsDistinct xs → (¬ In x xs) → IsDistinct (xs ++ x ∷ [])
  IsDistinct-append [] x d new = ((λ h. absurd h), tt)
  IsDistinct-append (y ∷ ys) x (fresh, d) new = (
    λ h. elim ((In-append y ys (x ∷ [])).0 h) [
      | inl old ↦ fresh old
      | inr (inl same) ↦ new (inl (sym same))
      | inr (inr none_left) ↦ absurd none_left
    ],
    IsDistinct-append ys x d (λ h. new (inr h)),
  )

  In-take : (n : ℕ) (xs : List A) (x : A) → In x (take n xs) → In x xs
  In-take zero xs x h = absurd h
  In-take (suc n) [] x h = absurd h
  In-take (suc n) (y ∷ ys) x (inl same) = inl same
  In-take (suc n) (y ∷ ys) x (inr later) = inr (In-take n ys x later)

  IsDistinct-take : (n : ℕ) (xs : List A) → IsDistinct xs → IsDistinct (take n xs)
  IsDistinct-take zero xs d = tt
  IsDistinct-take (suc n) [] d = tt
  IsDistinct-take (suc n) (x ∷ xs) (fresh, d) =
      ((λ h. fresh (In-take n xs x h)), IsDistinct-take n xs d)

  IsDistinct-drop : (n : ℕ) (xs : List A) → IsDistinct xs → IsDistinct (drop n xs)
  IsDistinct-drop zero xs d = d
  IsDistinct-drop (suc n) [] d = tt
  IsDistinct-drop (suc n) (x ∷ xs) (fresh, d) = IsDistinct-drop n xs d

  module _ (P : A → Type 0) where
    All-take : (n : ℕ) (xs : List A) → All P xs → All P (take n xs)
    All-take zero xs h = tt
    All-take (suc n) [] h = tt
    All-take (suc n) (x ∷ xs) (p, h) = (p, All-take n xs h)

    All-drop : (n : ℕ) (xs : List A) → All P xs → All P (drop n xs)
    All-drop zero xs h = h
    All-drop (suc n) [] h = tt
    All-drop (suc n) (x ∷ xs) (p, h) = All-drop n xs h

  length-take : (n : ℕ) (xs : List A) → length (take n xs) ≤ n
  length-take zero xs = omega arith
  length-take (suc n) [] = omega arith
  length-take (suc n) (x ∷ xs) = omega (arith, length-take n xs)

true≢false : true ≢ false
true≢false e = cc

abbrev IsScanned : List (List ℕ) → Type 0
IsScanned ts = All IsCanonical ts × IsDistinct ts

pushed-IsScanned :
    (text : List ℕ) (s : ScanState) (found : Option (List ℕ))
    → canonicalize_message_id text ≡ found
    → IsScanned s.all_tokens
    → IsScanned (push_token found s).all_tokens
unfolding push_token
pushed-IsScanned text s none e h = h
pushed-IsScanned text s (some token) e (canonical, d) =
    elim (Bool-cases (has_token s.all_tokens token)) [
      | inl old ↦ subst (λ b. IsScanned (either b).all_tokens) (sym old) (canonical, d)
      | inr new ↦
          subst (λ b. IsScanned (either b).all_tokens) (sym new)
            (
              All-append IsCanonical s.all_tokens (token ∷ []) canonical ((text, e), tt),
              IsDistinct-append s.all_tokens token d
                  (λ h. absurd (true≢false (sym ((has_token_iff s.all_tokens token).1 h) ∙ new))),
            )
    ]
  where
    either : Bool → ScanState
    either b = if b then s else record s { all_tokens = s.all_tokens ++ token ∷ [] }

scan_outside-tokens : (c : ℕ) (s : ScanState) → (scan_outside c s).all_tokens ≡ s.all_tokens
unfolding scan_outside
scan_outside-tokens c s = ground arith

scan_inside-tokens :
    (text : List ℕ) (c : ℕ) (s : ScanState)
    → ((scan_inside text c s).all_tokens ≡ s.all_tokens)
      ⊎ ((scan_inside text c s).all_tokens
          ≡ (push_token (canonicalize_message_id text) s).all_tokens)
unfolding scan_inside
scan_inside-tokens text c s = ground arith

scan_unit-IsScanned :
    (c : ℕ) (s : ScanState) → IsScanned s.all_tokens → IsScanned (scan_unit c s).all_tokens
unfolding scan_unit
scan_unit-IsScanned c s h = elim s.payload as (λ p. IsScanned (scanned p).all_tokens) [
  | none ↦ subst IsScanned (sym (scan_outside-tokens c s)) h
  | some text ↦ elim (scan_inside-tokens text c s) [
    | inl same ↦ subst IsScanned (sym same) h
    | inr pushed ↦ subst IsScanned (sym pushed) (pushed-IsScanned text s _ refl h)
  ]
]
  where
    scanned : Option (List ℕ) → ScanState
    scanned p = elim p [ none ↦ scan_outside c s | some text ↦ scan_inside text c s ]

scan_text-IsScanned :
    (cs : List ℕ) (s : ScanState) → IsScanned s.all_tokens → IsScanned (scan_text cs s).all_tokens
unfolding scan_text
scan_text-IsScanned [] s h = h
scan_text-IsScanned (c ∷ cs) s h =
    scan_text-IsScanned cs (scan_unit c s) (scan_unit-IsScanned c s h)

scan_values-IsScanned :
    (values : List (List ℕ)) (tokens : List (List ℕ))
    → IsScanned tokens
    → IsScanned (scan_values values tokens)
unfolding scan_values
scan_values-IsScanned [] tokens h = h
scan_values-IsScanned (value ∷ values) tokens h =
    scan_values-IsScanned values _ (scan_text-IsScanned (unfold_header value) (scan_start tokens) h)

keep_tokens-IsScanned :
    (keep : Keep) (limit : ℕ) (ts : List (List ℕ))
    → IsScanned ts
    → IsScanned (keep_tokens keep limit ts)
keep_tokens-IsScanned keep_first limit ts (c, d) =
    (All-take IsCanonical limit ts c, IsDistinct-take limit ts d)
keep_tokens-IsScanned keep_last limit ts (c, d) =
    elim (limit == 0) as (λ b. IsScanned (if b then ts else drop (length ts - limit) ts)) [
      | true ↦ (c, d)
      | false ↦
          (All-drop IsCanonical (length ts - limit) ts c, IsDistinct-drop (length ts - limit) ts d)
    ]

length-keep_tokens :
    (keep : Keep) (limit : ℕ) (ts : List (List ℕ))
    → 0 < limit
    → length (keep_tokens keep limit ts) ≤ limit
length-keep_tokens keep_first limit ts h = length-take limit ts
length-keep_tokens keep_last limit ts h = ground (arith, length-drop (length ts - limit) ts)

-- Whatever the header values are, a scan with a positive limit returns at most that many tokens; every
-- token is the canonical form of some payload, and no token is returned twice. The result is oversized
-- exactly if the values together exceed the limit on header characters, and then holds no token.
pub scan_message_id_tokens_sound :
    (values : List (List ℕ)) (keep : Keep) (limit : ℕ)
    → 0 < limit
    → (length (scan_message_id_tokens values keep limit).tokens ≤ limit)
      × All IsCanonical (scan_message_id_tokens values keep limit).tokens
      × IsDistinct (scan_message_id_tokens values keep limit).tokens
      × (((scan_message_id_tokens values keep limit).oversized ≡ true)
          ↔ (max_message_id_header_chars < sum_of length values))
      × ((scan_message_id_tokens values keep limit).oversized ≡ true
          → (scan_message_id_tokens values keep limit).tokens ≡ [])
unfolding scan_message_id_tokens
scan_message_id_tokens_sound values keep limit h =
    oversized_or_not (ltb max_message_id_header_chars (sum_of length values)) refl
  where
    result : Bool → ScanResult
    result b = if b then record { tokens = []; oversized = true; truncated = true } else record {
      tokens = keep_tokens keep limit (scan_values values []);
      oversized = false;
      truncated = ltb limit (length (scan_values values []));
    }

    oversized_or_not :
        (b : Bool)
        → ltb max_message_id_header_chars (sum_of length values) ≡ b
        → (length (result b).tokens ≤ limit)
          × All IsCanonical (result b).tokens
          × IsDistinct (result b).tokens
          × (((result b).oversized ≡ true) ↔ (max_message_id_header_chars < sum_of length values))
          × ((result b).oversized ≡ true → (result b).tokens ≡ [])
    oversized_or_not true e = (omega arith, tt, tt, (λ _. ltb→lt _ _ e, λ _. refl), λ _. refl)
    oversized_or_not false e =
        let (c, d) =
          keep_tokens-IsScanned keep limit _ (scan_values-IsScanned values [] (tt, tt)) in
        (
          length-keep_tokens keep limit (scan_values values []) h,
          c,
          d,
          (λ k. cc, λ lt. absurd (true≢false (sym (lt→ltb _ _ lt) ∙ e))),
          λ k. cc,
        )
