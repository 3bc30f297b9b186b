-- ===== src/Threading/Links/Order.antt =====
-- The order in which `threadAccount` visits the deliveries, and what a map or a sort of them keeps.
use supamail.Common.{◌≡◌, sym, ◌≢◌, inl, inr, Bool, List, [], ◌∷◌, map, All, Bool-cases, subst}
use supamail.Threading.Links.{Delivery, insert_by, sort_by}

-- No two members of a list agree in this.
abbrev pub DistinctBy : {A : Type 0} → (Delivery → A) → List Delivery → Type 0
DistinctBy f [] = Unit
DistinctBy f (d ∷ ds) = All (λ e. f d ≢ f e) ds × DistinctBy f ds

All-insert_by :
    (P : Delivery → Type 0) (precedes : Delivery → Delivery → Bool) (d : Delivery)
    (es : List Delivery)
    → P d
    → All P es
    → All P (insert_by precedes d es)
unfolding insert_by
All-insert_by P precedes d [] p h = (p, tt)
All-insert_by P precedes d (e ∷ es) p (q, h) = elim (Bool-cases (precedes e d)) [
  | inl later ↦ rw later (q, All-insert_by P precedes d es p h)
  | inr first ↦ rw first (p, (q, h))
]

pub All-sort_by :
    (P : Delivery → Type 0) (precedes : Delivery → Delivery → Bool) (ds : List Delivery)
    → All P ds
    → All P (sort_by precedes ds)
unfolding sort_by
All-sort_by P precedes [] h = tt
All-sort_by P precedes (d ∷ ds) (p, h) =
    All-insert_by P precedes d (sort_by precedes ds) p (All-sort_by P precedes ds h)

module _ {A : Type 0} (f : Delivery → A) (precedes : Delivery → Delivery → Bool) where
  DistinctBy-insert_by :
      (d : Delivery) (es : List Delivery)
      → All (λ e. f d ≢ f e) es
      → DistinctBy f es
      → DistinctBy f (insert_by precedes d es)
  unfolding insert_by
  DistinctBy-insert_by d [] h k = (tt, tt)
  DistinctBy-insert_by d (e ∷ es) (n, h) (m, k) = elim (Bool-cases (precedes e d)) [
    | inl later ↦ rw later (
      All-insert_by (λ x. f e ≢ f x) precedes d es (λ same. n (sym same)) m,
      DistinctBy-insert_by d es h k,
    )
    | inr first ↦ rw first ((n, h), (m, k))
  ]

  pub DistinctBy-sort_by :
      (ds : List Delivery) → DistinctBy f ds → DistinctBy f (sort_by precedes ds)
  unfolding sort_by
  DistinctBy-sort_by [] h = tt
  DistinctBy-sort_by (d ∷ ds) (n, h) =
      DistinctBy-insert_by d (sort_by precedes ds) (All-sort_by (λ e. f d ≢ f e) precedes ds n)
        (DistinctBy-sort_by ds h)

  -- A map of the deliveries that `f` does not see.
  pub All_of_map :
      (P : A → Type 0) (g : Delivery → Delivery)
      → ((d : Delivery) → f (g d) ≡ f d)
      → (ds : List Delivery) → All (λ d. P (f d)) ds
      → All (λ d. P (f d)) (map g ds)
  All_of_map P g same [] h = tt
  All_of_map P g same (d ∷ ds) (p, h) = (subst P (sym (same d)) p, All_of_map P g same ds h)

  pub DistinctBy-map :
      (g : Delivery → Delivery)
      → ((d : Delivery) → f (g d) ≡ f d)
      → (ds : List Delivery) → DistinctBy f ds
      → DistinctBy f (map g ds)
  DistinctBy-map g same [] h = tt
  DistinctBy-map g same (d ∷ ds) (n, h) = (
    subst (λ a. All (λ e. a ≢ f e) (map g ds)) (sym (same d))
        (All_of_map (λ a. f d ≢ a) g same ds n),
    DistinctBy-map g same ds h,
  )
