-- ===== src/Threading/Links/Nodes.antt =====
-- Deliveries with different keys have different nodes (`delivery.nodeKey`).
use supamail.Common.{
  ◌≡◌, refl, sym, ap, ◌∙◌, ◌≢◌, ◌⊎◌, inl, inr, true, some, List, [], ◌∷◌, ℕ, length, All, All-map,
  ◌==◌, arith, Bool-cases, subst, Option-cases,
}
use supamail.Common.Keys.{In}
use supamail.Common.Text.{same_codes_iff}
use supamail.Threading.Links.{
  NodeKey, Delivery, owns, token_owners, message_id_of, node_key, mark_ambiguous,
  is_ambiguous_owner,
}
use supamail.Threading.Links.Order.{DistinctBy}

token_owners-In :
    (token : List ℕ) (ds : List Delivery) (d : Delivery)
    → In d ds
    → owns token d ≡ true
    → In d (token_owners token ds)
unfolding token_owners
token_owners-In token [] d i o = absurd i
token_owners-In token (e ∷ ds) d (inl same) o =
    let mine : owns token e ≡ true = subst (λ x. owns token x ≡ true) same o in rw mine (inl same)
token_owners-In token (e ∷ ds) d (inr i) o = elim (Bool-cases (owns token e)) [
  | inl mine ↦ rw mine (inr (token_owners-In token ds d i o))
  | inr other ↦ rw other (token_owners-In token ds d i o)
]

one_owner :
    (os : List Delivery) (a b : Delivery) → (length os == 1) ≡ true → In a os → In b os → a ≡ b
one_owner [] a b one i j = absurd i
one_owner (o ∷ []) a b one (inl p) (inl q) = p ∙ sym q
one_owner (o ∷ []) a b one (inl p) (inr j) = absurd j
one_owner (o ∷ []) a b one (inr i) j = absurd i
one_owner (o ∷ o' ∷ os) a b one i j = absurd (ground arith)

owns-message_id : (d : Delivery) (id : List ℕ) → message_id_of d ≡ some id → owns id d ≡ true
owns-message_id d id e = elim (Option-cases d.message_id) [
  | inl missing ↦ let f = rw missing at e in absurd cc
  | inr (own, present) ↦ elim (Bool-cases (length own == 0)) [
    | inl empty ↦ let f = rw (present, empty) at e in absurd cc
    | inr full ↦
        let f = rw (present, full) at e in
        let same : id ≡ own = cc in rw (present, same, full) ((same_codes_iff own own).1 refl)
  ]
]

module _ (deliveries : List Delivery) where
  node_key-cases :
      (d : Delivery)
      → (node_key deliveries d ≡ NodeKey.delivery d.key)
        ⊎ ((id : List ℕ) × (message_id_of d ≡ some id)
            × ((length (token_owners id deliveries) == 1) ≡ true)
            × (node_key deliveries d ≡ NodeKey.reference id))
  unfolding node_key
  node_key-cases d = elim (Option-cases (message_id_of d)) [
    | inl missing ↦ inl (rw (missing, node_key) refl)
    | inr (id, present) ↦ elim (Bool-cases (length (token_owners id deliveries) == 1)) [
      | inl one ↦ inr (id, present, one, rw (present, one, node_key) refl)
      | inr several ↦ inl (rw (present, several, node_key) refl)
    ]
  ]

  node_key-injective :
      (a b : Delivery)
      → In a deliveries
      → In b deliveries
      → node_key deliveries a ≡ node_key deliveries b
      → a.key ≡ b.key
  node_key-injective a b i j same = elim (node_key-cases a) [
    | inl own ↦ elim (node_key-cases b) [
      | inl other ↦ cc
      | inr (id, present, one, other) ↦ absurd cc
    ]
    | inr (id, present, one, own) ↦ elim (node_key-cases b) [
      | inl other ↦ absurd cc
      | inr (id', present', one', other) ↦
          let ids : id ≡ id' = cc in
          ap (λ (d : Delivery). d.key)
            (one_owner (token_owners id deliveries) a b one
              (token_owners-In id deliveries a i (owns-message_id a id present))
              (token_owners-In id deliveries b j
                (owns-message_id b id (present' ∙ ap some (sym ids)))))
    ]
  ]

  pub node_key-Distinct :
      (es : List Delivery)
      → All (λ d. In d deliveries) es
      → DistinctBy (λ d. d.key) es
      → DistinctBy (node_key deliveries) es
  node_key-Distinct [] h k = tt
  node_key-Distinct (e ∷ es) (i, h) (n, k) = (others es h n, node_key-Distinct es h k)
    where
      others :
          (xs : List Delivery)
          → All (λ d. In d deliveries) xs
          → All (λ x. e.key ≢ x.key) xs
          → All (λ x. node_key deliveries e ≢ node_key deliveries x) xs
      others [] h n = tt
      others (x ∷ xs) (j, h) (m, n) = (λ same. m (node_key-injective e x i j same), others xs h n)

  -- The second loop changes no node.
  pub node_key-mark :
      (d : Delivery) → node_key deliveries (mark_ambiguous deliveries d) ≡ node_key deliveries d
  unfolding mark_ambiguous node_key
  node_key-mark d = elim (Bool-cases (is_ambiguous_owner deliveries d)) [
    | inl ambiguous ↦ rw (ambiguous, mark_ambiguous) refl
    | inr unique ↦ rw (unique, mark_ambiguous) refl
  ]

pub all_In : (xs : List Delivery) → All (λ d. In d xs) xs
all_In [] = tt
all_In (x ∷ xs) = (inl refl, All-map _ _ xs (λ d i. inr i) (all_In xs))
