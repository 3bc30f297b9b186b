-- ===== src/Threading/Conversations/Forwards.antt =====
-- The roots of the forwards (`forwardBoundaryComponents`).
use supamail.Common.{
  ◌≡◌, refl, sym, ap, ◌∙◌, ◌↔◌, ◌⊎◌, inl, inr, Bool, true, false, some, List, [], ◌∷◌, ℕ, subst,
  arith, Bool-cases,
}
use supamail.Common.Keys.{In, set_add, In-set_add}
use supamail.Common.Order.{StrictOrder}
use supamail.Threading.DisjointSet.{Sets, find}
use supamail.Threading.DisjointSet.Roots.{Root, Root-unique, IsSets}
use supamail.Threading.DisjointSet.Classes.{Same}
use supamail.Threading.Links.{NodeKey, NodeKey-discrete, Delivery, node_key}
use supamail.Threading.Conversations.{add_forward_root, forward_roots, forward_components}
use supamail.Threading.Conversations.Edges.{Alike, Alike-trans, Alike-back, find-Alike}

module _ (o : StrictOrder NodeKey) (by_key : StrictOrder (List ℕ))
    (deliveries : List Delivery) where
  abbrev pub Valid : Sets NodeKey → Type 0
  Valid s = IsSets o s

  abbrev pub Steady : Sets NodeKey → Sets NodeKey → Type 0
  Steady s t = Alike o NodeKey-discrete s t

  pub Steady-refl : (s : Sets NodeKey) → Valid s → Steady s s
  Steady-refl s v = record { sets = v; roots = λ r k h. h }

  -- A root of a forward among these deliveries.
  unfoldable pub ForwardRoot : List Delivery → Sets NodeKey → NodeKey → Type 0
  ForwardRoot ds s q =
      (d : Delivery) × In d ds × (d.is_forward ≡ true) × Root s q (node_key deliveries d)

  pub ForwardRoot-Alike :
      (ds : List Delivery) (s t : Sets NodeKey)
      → Valid s
      → Steady s t
      → (q : NodeKey) → ForwardRoot ds s q ↔ ForwardRoot ds t q
  unfolding ForwardRoot
  ForwardRoot-Alike ds s t v a q = (
    λ h. let (d, i, f, r) = h in (d, i, f, a.roots q (node_key deliveries d) r),
    λ h.
        let (d, i, f, r) = h in
        (d, i, f, Alike-back o NodeKey-discrete s t v a q (node_key deliveries d) r),
  )

  ForwardRoot-cons :
      (d : Delivery) (ds : List Delivery) (s : Sets NodeKey) (q : NodeKey)
      → ForwardRoot (d ∷ ds) s q
        ↔ (((d.is_forward ≡ true) × Root s q (node_key deliveries d)) ⊎ ForwardRoot ds s q)
  unfolding ForwardRoot
  ForwardRoot-cons d ds s q = (
    λ h.
        let (x, i, f, r) = h in
        elim i [
          | inl alike ↦ inl (
            ap (λ (z : Delivery). z.is_forward) (sym alike) ∙ f,
            subst (λ z. Root s q (node_key deliveries z)) alike r,
          )
          | inr more ↦ inr (x, more, f, r)
        ],
    λ h. elim h [
      | inl (f, r) ↦ (d, inl refl, f, r)
      | inr rest ↦ let (x, i, f, r) = rest in (x, inr i, f, r)
    ],
  )

  ForwardRoot-nil : (s : Sets NodeKey) (q : NodeKey) → ForwardRoot [] s q → ⊥
  unfolding ForwardRoot
  ForwardRoot-nil s q h = let (x, i, f, r) = h in i

  -- The only root of a key, as an equivalence.
  Root-iff : (s : Sets NodeKey) (r k q : NodeKey) → Root s r k → Root s q k ↔ (q ≡ r)
  Root-iff s r k q root =
      (λ h. Root-unique s q r k h root, λ alike. subst (λ z. Root s z k) (sym alike) root)

  add_forward_root-found :
      (d : Delivery) (roots : List NodeKey) (s t : Sets NodeKey) (r : NodeKey)
      → d.is_forward ≡ true
      → find NodeKey-discrete (node_key deliveries d) s ≡ some (r, t)
      → add_forward_root o by_key deliveries d roots s ≡ some (set_add NodeKey-discrete r roots, t)
  unfolding add_forward_root
  add_forward_root-found d roots s t r forward e = rw (forward, add_forward_root, e) refl

  add_forward_root-none :
      (d : Delivery) (roots : List NodeKey) (s : Sets NodeKey)
      → d.is_forward ≡ false
      → add_forward_root o by_key deliveries d roots s ≡ some (roots, s)
  unfolding add_forward_root
  add_forward_root-none d roots s own = rw (own, add_forward_root) refl

  -- The first loop collects the roots of the forwards, and changes no root.
  forward_roots_lem :
      (ds : List Delivery) (roots : List NodeKey) (s : Sets NodeKey)
      → Valid s
      → (more : List NodeKey) × (t : Sets NodeKey) × (forward_roots o by_key deliveries ds roots s
          ≡ some (more, t))
        × Steady s t
        × ((q : NodeKey) → In q more ↔ (In q roots ⊎ ForwardRoot ds s q))
  unfolding forward_roots
  forward_roots_lem [] roots s v =
      (roots, s, refl, Steady-refl s v, λ q. ground (arith, ForwardRoot-nil s q))
  forward_roots_lem (d ∷ ds) roots s v = elim (Bool-cases d.is_forward) [
    | inl forward ↦
        let (r, t, e, a, root) = find-Alike o NodeKey-discrete s (node_key deliveries d) v in
        let (more, u, f, b, iff) =
          forward_roots_lem ds (set_add NodeKey-discrete r roots) t a.sets in
        (
          more,
          u,
          rw (add_forward_root-found d roots s t r forward e, forward_roots) f,
          Alike-trans o NodeKey-discrete s t u a b,
          λ q. ground (
            arith,
            forward,
            iff q,
            In-set_add NodeKey-discrete r q roots,
            ForwardRoot-cons d ds s q,
            ForwardRoot-Alike ds s t v a q,
            Root-iff s r (node_key deliveries d) q root,
          ),
        )
    | inr own ↦
        let (more, u, f, b, iff) = forward_roots_lem ds roots s v in
        (
          more,
          u,
          rw (add_forward_root-none d roots s own, forward_roots) f,
          b,
          λ q. ground (arith, own, iff q, ForwardRoot-cons d ds s q),
        )
  ]

  module _ (boundaries : Bool) where
    pub forward_components_lem :
        (s : Sets NodeKey)
        → Valid s
        → (roots : List NodeKey) × (t : Sets NodeKey) × (forward_components o by_key deliveries
              boundaries s
            ≡ some (roots, t))
          × Steady s t
          × ((q : NodeKey) → In q roots ↔ ((boundaries ≡ true) × ForwardRoot deliveries s q))
          × (boundaries ≡ false → roots ≡ [])
    unfolding forward_components
    forward_components_lem s v = elim (Bool-cases boundaries) [
      | inl on ↦
          let (roots, t, e, a, iff) = forward_roots_lem deliveries [] s v in
          (
            roots,
            t,
            rw (on, forward_components) e,
            a,
            λ q. ground (arith, on, iff q),
            λ off. absurd (ground arith),
          )
      | inr off ↦ (
        [],
        s,
        rw (off, forward_components) refl,
        Steady-refl s v,
        λ q. ground (arith, off),
        λ same. refl,
      )
    ]

    -- The component of a key holds a forward, which bounds it.
    abbrev pub Held : Sets NodeKey → NodeKey → Type 0
    Held s x =
        (boundaries ≡ true)
        × ((d : Delivery) × In d deliveries
            × (d.is_forward ≡ true)
            × Same s x (node_key deliveries d))

    abbrev pub RootsOf : List NodeKey → Sets NodeKey → Type 0
    RootsOf roots s =
        (q : NodeKey) → In q roots ↔ ((boundaries ≡ true) × ForwardRoot deliveries s q)
