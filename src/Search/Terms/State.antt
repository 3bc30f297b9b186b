-- ===== src/Search/Terms/State.antt =====
-- The loop of `parseTextTerms`: what its variables hold after some tokens.
use supamail.Common.{
  ℕ, ◌+◌, ◌-◌, ◌≡◌, refl, sym, ap, ◌∙◌, ◌≢◌, ◌⊎◌, inl, inr, Bool, true, false, ◌&&◌, not, Option,
  none, some, List, [], ◌∷◌, ◌++◌, append-nil, append_assoc, length, length-append, flatten,
  flatten-append, sum_of, sum_of-append, All, All-append, arith, if◌then◌else◌,
}
use supamail.Search.Terms.{
  TextTerm, IgnoredOr, is_or, TermState, report, read_or, push_last, push_group, read_term,
}

-- The ORs of a list of tokens.
abbrev pub ors : List (List ℕ) → ℕ
ors = sum_of (λ raw. if is_or raw then 1 else 0)

-- The terms that a group joins to its first one.
abbrev pub joins : List TextTerm → ℕ
joins group = length group - 1

push_last-some :
    (term : TextTerm) (groups : List (List TextTerm))
    → groups ≢ []
    → All (λ g. g ≢ []) groups
    → (next : List (List TextTerm)) × (push_last term groups ≡ some next)
      × (flatten next ≡ flatten groups ++ term ∷ [])
      × (sum_of joins next ≡ 1 + sum_of joins groups)
      × (next ≢ [])
      × All (λ g. g ≢ []) next
unfolding push_last
push_last-some term [] some_group full = absurd (some_group refl)
push_last-some term (g ∷ []) some_group (full, _) = (
  (g ++ term ∷ []) ∷ [],
  refl,
  append-nil (g ++ term ∷ []) ∙ ap (λ xs. xs ++ term ∷ []) (sym (append-nil g)),
  one_more g full,
  (λ e. cc),
  (pushed g, tt),
)
  where
    one_more : (g : List TextTerm) → g ≢ [] → joins (g ++ term ∷ []) + 0 ≡ 1 + (joins g + 0)
    one_more [] h = absurd (h refl)
    one_more (x ∷ xs) h = omega (arith, length-append xs (term ∷ []))

    pushed : (g : List TextTerm) → g ++ term ∷ [] ≢ []
    pushed [] e = cc
    pushed (x ∷ xs) e = cc
push_last-some term (g ∷ h ∷ hs) some_group (full, rest) =
    let (next, e, joined, count, _, all) = push_last-some term (h ∷ hs) (λ e. cc) rest in
    (
      g ∷ next,
      rw e refl,
      ap (λ xs. g ++ xs) joined ∙ sym (append_assoc g (flatten (h ∷ hs)) (term ∷ [])),
      omega (arith, count),
      (λ e. cc),
      (full, all),
    )

-- The state after some tokens: the terms in groups, the excluded terms, and the ORs so far.
pub record Inv (kept excluded : List TextTerm) (n : ℕ) (s : TermState) : Type 0 where
  pub grouped : flatten s.groups ≡ kept
  pub negated : s.negative ≡ excluded
  pub counted : length s.ignored_or + sum_of joins s.groups + length (report s.pending_or) ≡ n
  pub full : All (λ g. g ≢ []) s.groups
  pub joinable : s.previous_groupable ≡ true → s.groups ≢ []
  pub pending : (s.pending_or ≡ none) ⊎ (s.groups ≢ [])

pub false≢true : false ≢ true
false≢true e = cc

pub read_or-Inv :
    (kept excluded : List TextTerm) (n : ℕ) (found : IgnoredOr) (s : TermState)
    → Inv kept excluded n s
    → Inv kept excluded (n + 1) (read_or found s)
unfolding read_or
read_or-Inv kept excluded n found s h = by_pending s.pending_or s.previous_groupable refl refl
  where
    by_pending :
        (p : Option IgnoredOr) (g : Bool)
        → s.pending_or ≡ p
        → s.previous_groupable ≡ g
        → Inv kept excluded (n + 1) (elim p [
          | some pending ↦ record s {
            ignored_or = s.ignored_or ++ pending ∷ found ∷ [];
            pending_or = none;
            previous_groupable = false;
          }
          | none ↦
              if g
              then record s { pending_or = some found; previous_groupable = false }
              else record s { ignored_or = s.ignored_or ++ found ∷ []; previous_groupable = false }
        ])
    by_pending (some p) g e t = record {
      grouped = h.grouped;
      negated = h.negated;
      counted = omega (
        arith,
        h.counted,
        ap (λ o. length (report o)) e,
        length-append s.ignored_or (p ∷ found ∷ []),
      );
      full = h.full;
      joinable = λ k. absurd (false≢true k);
      pending = inl refl;
    }
    by_pending none true e t = record {
      grouped = h.grouped;
      negated = h.negated;
      counted = omega (arith, h.counted, ap (λ o. length (report o)) e);
      full = h.full;
      joinable = λ k. absurd (false≢true k);
      pending = inr (h.joinable t);
    }
    by_pending none false e t = record {
      grouped = h.grouped;
      negated = h.negated;
      counted = omega (
        arith,
        h.counted,
        ap (λ o. length (report o)) e,
        length-append s.ignored_or (found ∷ []),
      );
      full = h.full;
      joinable = λ k. absurd (false≢true k);
      pending = inl e;
    }

abbrev pub one_if : Bool → TextTerm → List TextTerm
one_if true term = term ∷ []
one_if false term = []

-- A term joins the last group or begins one; there is a group to join.
push_group-some :
    (term : TextTerm) (p : Option IgnoredOr) (groups : List (List TextTerm))
    → (p ≡ none) ⊎ (groups ≢ [])
    → All (λ g. g ≢ []) groups
    → (next : List (List TextTerm)) × (push_group term p groups ≡ some next)
      × (flatten next ≡ flatten groups ++ term ∷ [])
      × (sum_of joins next ≡ length (report p) + sum_of joins groups)
      × (next ≢ [])
      × All (λ g. g ≢ []) next
unfolding push_group
push_group-some term none groups h full = (
  groups ++ (term ∷ []) ∷ [],
  refl,
  flatten-append groups ((term ∷ []) ∷ []),
  omega (arith, sum_of-append joins groups ((term ∷ []) ∷ [])),
  pushed groups,
  All-append _ groups ((term ∷ []) ∷ []) full ((λ e. cc), tt),
)
  where
    pushed : (gs : List (List TextTerm)) → gs ++ (term ∷ []) ∷ [] ≢ []
    pushed [] e = cc
    pushed (x ∷ xs) e = cc
push_group-some term (some p) groups (inl e) full = cc
push_group-some term (some p) groups (inr some_group) full =
    push_last-some term groups some_group full

pub read_term-Inv :
    (kept excluded : List TextTerm) (n : ℕ) (negated searchable : Bool) (term : TextTerm)
    (s : TermState)
    → Inv kept excluded n s
    → (next : TermState) × (read_term negated searchable term s ≡ some next)
      × Inv
          (kept ++ one_if (not negated && searchable) term)
          (excluded ++ one_if (negated && searchable) term)
          n
          next
unfolding read_term
read_term-Inv kept excluded n false true term s h =
    let (groups, e, joined, count, some_group, all) =
      push_group-some term s.pending_or s.groups h.pending h.full in
    (
      record s { groups = groups; pending_or = none; previous_groupable = true },
      rw e refl,
      record {
        grouped = joined ∙ ap (λ xs. xs ++ term ∷ []) h.grouped;
        negated = h.negated ∙ sym (append-nil excluded);
        counted = omega (arith, h.counted, count);
        full = all;
        joinable = λ _. some_group;
        pending = inl refl;
      },
    )
read_term-Inv kept excluded n false false term s h = (
  _,
  refl,
  record {
    grouped = h.grouped ∙ sym (append-nil kept);
    negated = h.negated ∙ sym (append-nil excluded);
    counted = omega (arith, h.counted, length-append s.ignored_or (report s.pending_or));
    full = h.full;
    joinable = λ k. absurd (false≢true k);
    pending = inl refl;
  },
)
read_term-Inv kept excluded n true true term s h = (
  _,
  refl,
  record {
    grouped = h.grouped ∙ sym (append-nil kept);
    negated = ap (λ xs. xs ++ term ∷ []) h.negated;
    counted = omega (arith, h.counted, length-append s.ignored_or (report s.pending_or));
    full = h.full;
    joinable = λ k. absurd (false≢true k);
    pending = inl refl;
  },
)
read_term-Inv kept excluded n true false term s h = (
  _,
  refl,
  record {
    grouped = h.grouped ∙ sym (append-nil kept);
    negated = h.negated ∙ sym (append-nil excluded);
    counted = omega (arith, h.counted, length-append s.ignored_or (report s.pending_or));
    full = h.full;
    joinable = λ k. absurd (false≢true k);
    pending = inl refl;
  },
)
