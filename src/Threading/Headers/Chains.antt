-- ===== src/Threading/Headers/Chains.antt =====
-- Reference chains as suffixes of one another, and what the reconciliation of a header selects.
use supamail.Common.{
  ℕ, zero, suc, ◌+◌, ◌-◌, ◌≡◌, ◌≢◌, refl, sym, ap, ◌∙◌, subst, ◌↔◌, ◌⊎◌, inl, inr, true, false,
  Option, none, some, List, [], ◌∷◌, ◌++◌, length, length-append, length-drop, get_elem?, take,
  drop, append_assoc, append-nil, Bool-cases, ltb, arith,
}
use supamail.Common.Text.{same_codes_iff}
use supamail.Threading.Headers.{
  Chain, is_at, every_from, is_chain_suffix, compatible_reference_chains,
}

-- `longer` ends with `shorter`.
abbrev pub IsSuffix : {A : Type 0} → List A → List A → Type 0
IsSuffix {A} shorter longer = (front : List A) × (longer ≡ front ++ shorter)

is_at-eq : (o : Option (List ℕ)) (t : List ℕ) → is_at o t ≡ true → o ≡ some t
is_at-eq none t e = cc
is_at-eq (some x) t e = ap some (sym ((same_codes_iff t x).0 e))

drop-get :
    {A : Type 0} (n : ℕ) (xs : List A) (x : A)
    → get_elem? xs n ≡ some x
    → drop n xs ≡ x ∷ drop (suc n) xs
drop-get n [] x e = cc
drop-get zero (y ∷ ys) x e = ap (λ z. z ∷ ys) (some-injective e)
  where
    some-injective : {A : Type 0} {a b : A} → ◌≡◌ {A = Option A} (some a) (some b) → a ≡ b
    some-injective e = cc
drop-get (suc n) (y ∷ ys) x e = drop-get n ys x e

take-drop : {A : Type 0} (n : ℕ) (xs : List A) → xs ≡ take n xs ++ drop n xs
take-drop zero xs = refl
take-drop (suc n) [] = refl
take-drop (suc n) (x ∷ xs) = ap (λ ys. x ∷ ys) (take-drop n xs)

get-append :
    {A : Type 0} (front : List A) (x : A) (rest : List A)
    → get_elem? (front ++ x ∷ rest) (length front) ≡ some x
get-append [] x rest = refl
get-append (y ∷ ys) x rest = get-append ys x rest

-- The tokens from some place on.
every_from-drop :
    (at : ℕ) (longer tokens : Chain)
    → every_from at longer tokens ≡ true
    → (rest : Chain) × (drop at longer ≡ tokens ++ rest)
unfolding every_from
every_from-drop at longer [] e = (drop at longer, refl)
every_from-drop at longer (t ∷ ts) e = elim (Bool-cases (is_at (get_elem? longer at) t)) [
  | inl found ↦
      let (rest, r) = every_from-drop (suc at) longer ts (rw found at e) in
      (rest, drop-get at longer t (is_at-eq _ t found) ∙ ap (λ ys. t ∷ ys) r)
  | inr other ↦ absurd (false≢true (rw other at e))
]
  where
    false≢true : false ≢ true
    false≢true e = cc

every_from-append :
    (front tokens longer : Chain) (at : ℕ)
    → longer ≡ front ++ tokens
    → at ≡ length front
    → every_from at longer tokens ≡ true
unfolding every_from
every_from-append front [] longer at e n = refl
every_from-append front (t ∷ ts) longer at e n =
    let found : get_elem? longer at ≡ some t =
      subst (λ ys. get_elem? ys at ≡ some t) (sym e)
        (subst (λ m. get_elem? (front ++ t ∷ ts) m ≡ some t) (sym n) (get-append front t ts)) in
    let here : is_at (get_elem? longer at) t ≡ true =
      subst (λ o. is_at o t ≡ true) (sym found) ((same_codes_iff t t).1 refl) in
    let rest =
      every_from-append (front ++ t ∷ []) ts longer (suc at)
        (e ∙ sym (append_assoc front (t ∷ []) ts)) (omega (arith, length-append front (t ∷ []))) in
    rw here rest

is_chain_suffix-IsSuffix :
    (left right : Chain) → is_chain_suffix left right ≡ true → IsSuffix left right
unfolding is_chain_suffix
is_chain_suffix-IsSuffix left right e = elim (Bool-cases (ltb (length right) (length left))) [
  | inl short ↦ absurd (false≢true (rw short at e))
  | inr fits ↦
      let n = length right - length left in
      let (rest, r) = every_from-drop n right left (rw fits at e) in
      let lengths : length (drop n right) ≡ length left + length rest =
        ap length r ∙ length-append left rest in
      let nothing = empty_rest rest (ground (arith, lengths, length-drop n right)) in
      (
        take n right,
        take-drop n right
            ∙ ap (λ ys. take n right ++ ys) (r ∙ ap (λ ys. left ++ ys) nothing ∙ append-nil left),
      )
]
  where
    false≢true : false ≢ true
    false≢true e = cc

    empty_rest : (ys : Chain) → length ys ≡ 0 → ys ≡ []
    empty_rest [] e = refl
    empty_rest (y ∷ ys) e = absurd (omega arith)

IsSuffix-is_chain_suffix :
    (left right : Chain) → IsSuffix left right → is_chain_suffix left right ≡ true
unfolding is_chain_suffix
IsSuffix-is_chain_suffix left right (front, e) =
    let lengths : length right ≡ length front + length left =
      ap length e ∙ length-append front left in
    let every = every_from-append front left right (length right - length left) e (omega arith) in
    let fits : ltb (length right) (length left) ≡ false = ground (arith, lengths) in rw fits every

-- `isChainSuffix` is the test for a suffix, and two chains are compatible exactly if one of them is a
-- suffix of the other.
pub is_chain_suffix_iff :
    (left right : Chain)
    → ((is_chain_suffix left right ≡ true) ↔ IsSuffix left right)
      × ((compatible_reference_chains left right ≡ true)
          ↔ (IsSuffix left right ⊎ IsSuffix right left))
unfolding compatible_reference_chains
is_chain_suffix_iff left right = (
  (is_chain_suffix-IsSuffix left right, IsSuffix-is_chain_suffix left right),
  (
    λ e. elim (Bool-cases (is_chain_suffix left right)) [
      | inl h ↦ inl (is_chain_suffix-IsSuffix left right h)
      | inr h ↦ inr (is_chain_suffix-IsSuffix right left (rw h at e))
    ],
    λ h. elim h [
      | inl x ↦ let l = IsSuffix-is_chain_suffix left right x in rw l refl
      | inr x ↦
          let r = IsSuffix-is_chain_suffix right left x in
          elim (Bool-cases (is_chain_suffix left right)) [ inl l ↦ rw l refl | inr l ↦ rw l r ]
    ],
  ),
)
