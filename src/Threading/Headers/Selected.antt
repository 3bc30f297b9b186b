-- ===== src/Threading/Headers/Selected.antt =====
-- What the reconciliation of the occurrences of one header selects.
use supamail.Common.{
  ℕ, ◌+◌, ◌≤◌, ◌≡◌, ◌≢◌, refl, sym, ap, ◌∙◌, subst, ◌⊎◌, inl, inr, Bool, true, false, ◌&&◌, ◌||◌,
  not, Option, none, some, List, [], ◌∷◌, ◌++◌, length, length-append, append_assoc, append-nil,
  sum_of, All, All-append, All-map, Bool-cases, ltb, ◌==◌, ltb→lt, arith, if◌then◌else◌,
}
use supamail.Threading.MessageId.Scan.{
  Keep, scan_message_id_tokens, ScanResult, max_message_id_header_chars,
}
use supamail.Threading.Headers.{
  Chain, compatible_reference_chains, Selection, no_selection, select_tokens, reconcile_scan,
  ReconciledHeaderScan, selected_tokens, reconciled, reconcile_loop, reconcile_header_occurrences,
  present_values,
}
use supamail.Threading.Headers.Chains.{IsSuffix, is_chain_suffix_iff}

module _ {A : Type 0} where
  IsSuffix-refl : (xs : List A) → IsSuffix xs xs
  IsSuffix-refl xs = ([], refl)

  IsSuffix-trans : (xs ys zs : List A) → IsSuffix xs ys → IsSuffix ys zs → IsSuffix xs zs
  IsSuffix-trans xs ys zs (f, e) (g, h) =
      (g ++ f, h ∙ ap (λ v. g ++ v) e ∙ sym (append_assoc g f xs))

  IsSuffix-length : (xs ys : List A) → IsSuffix xs ys → length xs ≤ length ys
  IsSuffix-length xs ys (front, e) =
      let lengths : length ys ≡ length front + length xs = ap length e ∙ length-append front xs in
      omega arith

  -- A suffix that is not shorter is the whole list.
  IsSuffix-whole : (xs ys : List A) → IsSuffix xs ys → length ys ≤ length xs → xs ≡ ys
  IsSuffix-whole xs ys ([], e) h = sym e
  IsSuffix-whole xs ys (x ∷ front, e) h =
      absurd (omega (arith, ap length e, length-append front xs))

not_less : (a b : ℕ) → ltb a b ≡ false → b ≤ a
not_less a b e = ground arith

some-injective : {A : Type 0} {a b : A} → ◌≡◌ {A = Option A} (some a) (some b) → a ≡ b
some-injective e = cc

false≢true : false ≢ true
false≢true e = cc

false-or : (a b : Bool) → (a || b) ≡ false → (a ≡ false) × (b ≡ false)
false-or false b e = (refl, e)
false-or true b e = cc

module _ (keep : Keep) (limit : ℕ) where
  abbrev pub tokens_of : List ℕ → Chain
  tokens_of value = (scan_message_id_tokens (value ∷ []) keep limit).tokens

  found_token :
      (tokens : Chain) (oversized : Bool)
      → (length tokens == 0 && not oversized) ≡ false
      → oversized ≡ false
      → tokens ≢ []
  found_token [] oversized f o e = ground arith
  found_token (t ∷ tokens) oversized f o e = cc

  abbrev pub scan_of : List ℕ → ScanResult
  scan_of value = scan_message_id_tokens (value ∷ []) keep limit

  -- The scan of an occurrence found a token within the limits, and the chain ends in what it found.
  abbrev pub Sound : Chain → List ℕ → Type 0
  Sound chain value =
      IsSuffix (tokens_of value) chain
      × (tokens_of value ≢ [])
      × ((scan_of value).oversized ≡ false)

  Sound-longer :
      (chain new : Chain) (value : List ℕ)
      → IsSuffix chain new
      → Sound chain value
      → Sound new value
  Sound-longer chain new value older h =
      (IsSuffix-trans (tokens_of value) chain new h.0 older, h.1, h.2)

  -- The selected chain covers every value.
  abbrev Chosen : List (List ℕ) → Option Chain → Type 0
  Chosen values selected =
      ((values ≡ []) × (selected ≡ none))
      ⊎ ((chain : Chain) × (selected ≡ some chain) × All (Sound chain) values)

  extended :
      (values : List (List ℕ)) (value : List ℕ) (chain new : Chain)
      → IsSuffix chain new
      → Sound new value
      → All (Sound chain) values
      → Chosen (values ++ value ∷ []) (some new)
  extended values value chain new older newer all = inr (
    new,
    refl,
    All-append _ values (value ∷ []) (All-map _ _ values (λ v. Sound-longer chain new v older) all)
        (newer, tt),
  )

  select_tokens-flags :
      (tokens : Chain) (s : Selection) (selected : Option Chain)
      → ((select_tokens compatible_reference_chains tokens s selected).oversized ≡ s.oversized)
        × ((select_tokens compatible_reference_chains tokens s selected).malformed ≡ s.malformed)
        × ((select_tokens compatible_reference_chains tokens s selected).conflict ≡ false
            → s.conflict ≡ false)
  unfolding select_tokens
  select_tokens-flags tokens s none = (refl, refl, λ e. e)
  select_tokens-flags tokens s (some chain) = ground arith

  chain_round :
      (values : List (List ℕ)) (value : List ℕ) (s : Selection) (chain : Chain)
      → All (Sound chain) values
      → (tokens_of value ≢ []) × ((scan_of value).oversized ≡ false)
      → (c : Bool) → compatible_reference_chains chain (tokens_of value) ≡ c
      → (l : Bool) → ltb (length chain) (length (tokens_of value)) ≡ l
      → s.selected ≡ some chain
      → (if c
          then if l then record s { selected = some (tokens_of value) } else s
          else record s { conflict = true }).conflict
        ≡ false
      → Chosen
          (values ++ value ∷ [])
          (if c
            then if l then record s { selected = some (tokens_of value) } else s
            else record s { conflict = true }).selected
  chain_round values value s chain all found false ec l el same e = cc
  chain_round values value s chain all found true ec true el same e =
      elim ((is_chain_suffix_iff chain (tokens_of value)).1.0 ec) [
        | inl older ↦
            extended values value chain (tokens_of value) older
              (IsSuffix-refl (tokens_of value), found.0, found.1) all
        | inr other ↦
            absurd (omega (arith, IsSuffix-length (tokens_of value) chain other, ltb→lt _ _ el))
      ]
  chain_round values value s chain all found true ec false el same e =
      subst (Chosen (values ++ value ∷ [])) (sym same)
        (extended values value chain chain (IsSuffix-refl chain) (newer, found.0, found.1) all)
    where
      newer : IsSuffix (tokens_of value) chain
      newer = elim ((is_chain_suffix_iff chain (tokens_of value)).1.0 ec) [
        | inl x ↦
            subst (λ c. IsSuffix c chain)
              (IsSuffix-whole chain (tokens_of value) x
                (not_less (length chain) (length (tokens_of value)) el))
              (IsSuffix-refl chain)
        | inr x ↦ x
      ]

  select_tokens-Chosen :
      (values : List (List ℕ)) (value : List ℕ) (s : Selection) (selected : Option Chain)
      → s.selected ≡ selected
      → (select_tokens compatible_reference_chains (tokens_of value) s selected).conflict ≡ false
      → Chosen values selected
      → (tokens_of value ≢ []) × ((scan_of value).oversized ≡ false)
      → Chosen
          (values ++ value ∷ [])
          (select_tokens compatible_reference_chains (tokens_of value) s selected).selected
  unfolding select_tokens
  select_tokens-Chosen values value s none same e (inl (no_values, _)) found =
      subst (λ vs. Chosen (vs ++ value ∷ []) (some (tokens_of value))) (sym no_values)
        (inr (tokens_of value, refl, ((IsSuffix-refl (tokens_of value), found.0, found.1), tt)))
  select_tokens-Chosen values value s none same e (inr (chain, chosen, all)) found = cc
  select_tokens-Chosen values value s (some chain) same e (inl (no_values, none_chosen)) found = cc
  select_tokens-Chosen values value s (some chain) same e (inr (sel, chosen, all)) found =
      chain_round values value s chain
        (subst (λ c. All (Sound c) values) (some-injective (sym chosen)) all) found _ refl _ refl
        same e

  -- What the loop keeps: unless a flag is raised, the selected chain covers the values so far.
  abbrev Covers : List (List ℕ) → Selection → Type 0
  Covers values s =
      s.oversized ≡ false → s.malformed ≡ false → s.conflict ≡ false → Chosen values s.selected

  reconcile_scan-Covers :
      (values : List (List ℕ)) (value : List ℕ) (s : Selection)
      → Covers values s
      → Covers (values ++ value ∷ []) (
          reconcile_scan compatible_reference_chains
            (scan_message_id_tokens (value ∷ []) keep limit)
            s)
  unfolding reconcile_scan
  reconcile_scan-Covers values value s h =
      malformed_or_not (length scan.tokens == 0 && not scan.oversized) refl
    where
      scan : ScanResult
      scan = scan_message_id_tokens (value ∷ []) keep limit

      flagged : Selection
      flagged = record s {
        oversized = s.oversized || scan.oversized;
        truncated = s.truncated || scan.truncated;
      }

      malformed_or_not :
          (b : Bool)
          → (length scan.tokens == 0 && not scan.oversized) ≡ b
          → Covers (values ++ value ∷ []) (
              if b
              then record flagged { malformed = true }
              else select_tokens compatible_reference_chains scan.tokens flagged flagged.selected)
      malformed_or_not true f o m c = absurd (false≢true (sym m))
      malformed_or_not false f o m c =
          let (fo, fm, fc) = select_tokens-flags scan.tokens flagged flagged.selected in
          let old = false-or s.oversized scan.oversized (sym fo ∙ o) in
          select_tokens-Chosen values value flagged flagged.selected refl c
            (h old.0 (sym fm ∙ m) (fc c)) (found_token scan.tokens scan.oversized f old.1, old.1)

  reconcile_loop-Covers :
      (done values : List (List ℕ)) (s : Selection)
      → Covers done s
      → Covers (done ++ values) (reconcile_loop compatible_reference_chains keep limit values s)
  unfolding reconcile_loop
  reconcile_loop-Covers done [] s h = subst (λ vs. Covers vs s) (sym (append-nil done)) h
  reconcile_loop-Covers done (value ∷ values) s h =
      let next =
        reconcile_scan compatible_reference_chains (scan_message_id_tokens (value ∷ []) keep limit)
          s in
      subst (λ vs. Covers vs (reconcile_loop compatible_reference_chains keep limit values next))
        (append_assoc done (value ∷ []) values)
        (reconcile_loop-Covers (done ++ value ∷ []) values next
          (reconcile_scan-Covers done value s h))

  abbrev Agrees : List (List ℕ) → ReconciledHeaderScan → Type 0
  Agrees values r =
      r.tokens ≢ []
      → All (Sound r.tokens) values
        × (r.oversized ≡ false)
        × (r.malformed ≡ false)
        × (r.conflict ≡ false)

  reconciled-Agrees :
      (values : List (List ℕ)) (s : Selection)
      → Covers values s
      → Agrees values (reconciled compatible_reference_chains s)
  reconciled-Agrees values s h some_tokens =
      elim (Bool-cases (s.oversized || s.malformed || s.conflict)) [
        | inl raised ↦ absurd (some_tokens (rw raised refl))
        | inr clear ↦
            let (om, c) = false-or (s.oversized || s.malformed) s.conflict clear in
            let (o, m) = false-or s.oversized s.malformed om in
            let no_flag : selected_tokens compatible_reference_chains s ≡ chain_or s.selected =
              rw clear refl in
            elim (h o m c) [
              | inl (no_values, none_selected) ↦
                  absurd (some_tokens (no_flag ∙ ap chain_or none_selected))
              | inr (chain, selected, all) ↦
                  let tokens_eq = no_flag ∙ ap chain_or selected in
                  (subst (λ t. All (Sound t) values) (sym tokens_eq) all, o, m, c)
            ]
      ]
    where
      chain_or : Option Chain → Chain
      chain_or selected = elim selected [ none ↦ [] | some tokens ↦ tokens ]

  -- The tokens of a reconciliation, if there are any, are one reference chain that every occurrence of
  -- the header which is not blank agrees with: the scan of the occurrence by itself is not oversized,
  -- finds at least one token, and finds a suffix of the chain. The result then carries none of the flags oversized,
  -- malformed and conflict.
  pub reconcile_header_occurrences-covers :
      (values : List (List ℕ)) (r : ReconciledHeaderScan)
      → reconcile_header_occurrences compatible_reference_chains values keep limit ≡ r
      → r.tokens ≢ []
      → All (Sound r.tokens) (present_values values)
        × (r.oversized ≡ false)
        × (r.malformed ≡ false)
        × (r.conflict ≡ false)
  unfolding reconcile_header_occurrences
  reconcile_header_occurrences-covers values r e = subst (Agrees (present_values values)) e (
      branch (ltb max_message_id_header_chars (sum_of length (present_values values)))
        (length (present_values values) == 0))
    where
      branch :
          (b c : Bool)
          → Agrees (present_values values) (
              if b
              then record {
                tokens = [];
                oversized = true;
                truncated = true;
                conflict = false;
                had_value = true;
                malformed = false;
              }
              else if c
              then record {
                tokens = [];
                oversized = false;
                truncated = false;
                conflict = false;
                had_value = false;
                malformed = false;
              }
              else reconciled compatible_reference_chains (
                  reconcile_loop compatible_reference_chains keep limit
                    (present_values values)
                    no_selection))
      branch true c some_tokens = absurd (some_tokens refl)
      branch false true some_tokens = absurd (some_tokens refl)
      branch false false some_tokens =
          reconciled-Agrees (present_values values)
            (reconcile_loop compatible_reference_chains keep limit (present_values values)
              no_selection)
            (reconcile_loop-Covers [] (present_values values) no_selection
              (λ o m c. inl (refl, refl)))
            some_tokens
