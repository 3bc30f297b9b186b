-- ===== src/Threading/Conversations/Eligible.antt =====
-- The members of a group outside the components of the forwards (`eligible`).
use supamail.Common.{
  ◌≡◌, refl, sym, ◌↔◌, inl, inr, Bool, false, some, List, [], ◌∷◌, ℕ, subst, arith, Bool-cases,
}
use supamail.Common.Keys.{In, contains, contains_iff}
use supamail.Common.Order.{StrictOrder}
use supamail.Threading.DisjointSet.{Sets}
use supamail.Threading.DisjointSet.Roots.{Root, Root-unique, IsSets}
use supamail.Threading.Links.{NodeKey, NodeKey-discrete, Delivery, node_key}
use supamail.Threading.Conversations.{outside, eligible}
use supamail.Threading.Conversations.Edges.{Alike, Alike-trans, Alike-back, find-Alike}
use supamail.Threading.Conversations.Forwards.{Steady-refl, ForwardRoot, Held, RootsOf}

module _ (o : StrictOrder NodeKey) (by_key : StrictOrder (List ℕ))
    (deliveries : List Delivery) where
  -- A class without a forward.
  pub Outside : List NodeKey → Sets NodeKey → Delivery → Type 0
  Outside roots s m = (q : NodeKey) → Root s q (node_key deliveries m) → In q roots → ⊥

  Outside-Alike :
      (roots : List NodeKey) (s t : Sets NodeKey) (m : Delivery)
      → IsSets o s
      → Alike o NodeKey-discrete s t
      → Outside roots t m ↔ Outside roots s m
  unfolding Outside
  Outside-Alike roots s t m v a =
      let k = node_key deliveries m in
      (λ h q r. h q (a.roots q k r), λ h q r. h q (Alike-back o NodeKey-discrete s t v a q k r))

  Outside-iff :
      (roots : List NodeKey) (s : Sets NodeKey) (m x : Delivery) (r : NodeKey)
      → Root s r (node_key deliveries m)
      → x ≡ m
      → Outside roots s x ↔ (In r roots → ⊥)
  unfolding Outside
  Outside-iff roots s m x r root alike =
      let root' = subst (λ z. Root s r (node_key deliveries z)) (sym alike) root in
      (
        λ h. h r root',
        λ h q other i.
            h (subst (λ z. In z roots) (Root-unique s q r (node_key deliveries x) other root') i),
      )

  outside_lem :
      (roots : List NodeKey) (ms : List Delivery) (s : Sets NodeKey)
      → IsSets o s
      → (es : List Delivery) × (t : Sets NodeKey) × (outside o by_key deliveries roots ms s
          ≡ some (es, t))
        × Alike o NodeKey-discrete s t
        × ((m : Delivery) → In m es ↔ (In m ms × Outside roots s m))
  unfolding outside
  outside_lem roots [] s v =
      ([], s, refl, Steady-refl o by_key deliveries s v, λ m. (λ i. absurd i, λ h. absurd h.0))
  outside_lem roots (m ∷ ms) s v =
      let (r, t, e, a, root) = find-Alike o NodeKey-discrete s (node_key deliveries m) v in
      let (es, u, f, b, iff) = outside_lem roots ms t a.sets in
      elim (Bool-cases (contains NodeKey-discrete roots r)) [
        | inl inside ↦ (
          es,
          u,
          rw (e, outside, f, inside) refl,
          Alike-trans o NodeKey-discrete s t u a b,
          λ x. ground (
            arith,
            inside,
            iff x,
            Outside-Alike roots s t x v a,
            Outside-iff roots s m x r root,
            contains_iff NodeKey-discrete roots r,
          ),
        )
        | inr free ↦ (
          m ∷ es,
          u,
          rw (e, outside, f, free) refl,
          Alike-trans o NodeKey-discrete s t u a b,
          λ x. ground (
            arith,
            free,
            iff x,
            Outside-Alike roots s t x v a,
            Outside-iff roots s m x r root,
            contains_iff NodeKey-discrete roots r,
          ),
        )
      ]

  no_roots :
      (roots : List NodeKey) (s : Sets NodeKey) (m : Delivery) → roots ≡ [] → Outside roots s m
  unfolding Outside
  no_roots roots s m empty q r i = subst (In q) empty i

  module _ (boundaries : Bool) where
    -- Before version 3 there are no boundaries, so that no component holds a forward.
    pub eligible_lem :
        (roots : List NodeKey) (ms : List Delivery) (s : Sets NodeKey)
        → IsSets o s
        → (boundaries ≡ false → roots ≡ [])
        → (es : List Delivery) × (t : Sets NodeKey) × (eligible o by_key deliveries boundaries roots
              ms s
            ≡ some (es, t))
          × Alike o NodeKey-discrete s t
          × ((m : Delivery) → In m es ↔ (In m ms × Outside roots s m))
    unfolding eligible
    eligible_lem roots ms s v empty = elim (Bool-cases boundaries) [
      | inl on ↦ rw (on, eligible) (outside_lem roots ms s v)
      | inr off ↦
          rw (off, eligible)
            (
              ms,
              s,
              refl,
              Steady-refl o by_key deliveries s v,
              λ m. (λ i. (i, no_roots roots s m (empty off)), λ h. h.0),
            )
    ]

    pub Outside-Held :
        (roots : List NodeKey) (s : Sets NodeKey) (m : Delivery)
        → RootsOf o by_key deliveries boundaries roots s
        → Outside roots s m ↔ ¬ Held o by_key deliveries boundaries s (node_key deliveries m)
    unfolding Outside ForwardRoot
    Outside-Held roots s m iff = (
      λ h held.
          let (on, forward) = held in
          let (d, i, f, shared) = forward in
          let (r, p, q) = shared in h r p ((iff r).1 (on, (d, i, f, q))),
      λ free q r i.
          let (on, forward) = (iff q).0 i in
          let (d, j, f, root) = forward in free (on, (d, j, f, (q, r, root))),
    )
