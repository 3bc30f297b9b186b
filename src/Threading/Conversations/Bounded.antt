-- ===== src/Threading/Conversations/Bounded.antt =====
-- No union of the provider's threads touches a component that holds a forward.
use supamail.Common.{◌≡◌, ◌↔◌, ◌⊎◌, inl, inr, Bool, true, List, ℕ}
use supamail.Common.Keys.{In}
use supamail.Common.Order.{StrictOrder}
use supamail.Threading.DisjointSet.{Sets}
use supamail.Threading.DisjointSet.Roots.{IsSets}
use supamail.Threading.DisjointSet.Classes.{base, same, flip, chain, Same}
use supamail.Threading.Links.{NodeKey, NodeKey-discrete, Delivery, node_key}
use supamail.Threading.Conversations.Edges.{Closure-stays, Same-equivalence, Root-stable}
use supamail.Threading.Conversations.Forwards.{ForwardRoot, Held, RootsOf}
use supamail.Threading.Conversations.Connections.{Joined}

module _ (o : StrictOrder NodeKey) (by_key : StrictOrder (List ℕ)) (deliveries : List Delivery)
    (boundaries : Bool) (start : Sets NodeKey) where
  abbrev pub node_of : Delivery → NodeKey
  node_of d = node_key deliveries d

  -- The component at the start held a forward.
  abbrev pub HeldKey : NodeKey → Type 0
  HeldKey x = Held o by_key deliveries boundaries start x

  -- The classes grew, but those of the forwards did not, and the roots are still theirs.
  pub record Bounded (roots : List NodeKey) (s : Sets NodeKey) : Type 0 where
    pub sets : IsSets o s
    pub grows : (x y : NodeKey) → Same start x y → Same s x y
    pub bounded :
        boundaries ≡ true
        → (d : Delivery) → In d deliveries
        → d.is_forward ≡ true
        → (x : NodeKey) → Same s x (node_of d)
        → Same start x (node_of d)
    pub roots_of : RootsOf o by_key deliveries boundaries roots s

  pub Held-Bounded :
      (roots : List NodeKey) (s : Sets NodeKey)
      → Bounded roots s
      → (x : NodeKey) → Held o by_key deliveries boundaries s x ↔ HeldKey x
  Held-Bounded roots s b x = (
    λ h.
        let (on, held) = h in
        let (d, i, f, shared) = held in (on, (d, i, f, b.bounded on d i f x shared)),
    λ h.
        let (on, held) = h in
        let (d, i, f, shared) = held in (on, (d, i, f, b.grows x (node_of d) shared)),
  )

  module _ (roots : List NodeKey) (s t : Sets NodeKey) (P : NodeKey → NodeKey → Type 0)
      (b : Bounded roots s) (w : IsSets o t)
      (iff : (x y : NodeKey) → Same t x y ↔ Joined o by_key deliveries P s x y)
      (free : (x y : NodeKey) → P x y → (¬ HeldKey x) × (¬ HeldKey y)) where
    -- The class of a forward is what it was before the unions.
    class_stays :
        boundaries ≡ true
        → (d : Delivery) → In d deliveries
        → d.is_forward ≡ true
        → (x : NodeKey) → Same t x (node_of d)
        → Same s x (node_of d)
    class_stays on d i f x h =
        (Closure-stays (λ a c. Same s a c ⊎ P a c) (λ a. Same s a (node_of d)) edge x (node_of d)
            ((iff x (node_of d)).0 h)).1
          (Same-equivalence o NodeKey-discrete s b.sets (node_of d) (node_of d) same)
      where
        held : (a : NodeKey) → Same s a (node_of d) → HeldKey a
        held a k = (on, (d, i, f, b.bounded on d i f a k))

        edge : (a c : NodeKey) → Same s a c ⊎ P a c → Same s a (node_of d) ↔ Same s c (node_of d)
        edge a c (inl before) = (
          λ k.
              Same-equivalence o NodeKey-discrete s b.sets c (node_of d)
                (chain (flip (base before)) (base k)),
          λ k.
              Same-equivalence o NodeKey-discrete s b.sets a (node_of d)
                (chain (base before) (base k)),
        )
        edge a c (inr pair) =
            (λ k. absurd ((free a c pair).0 (held a k)), λ k. absurd ((free a c pair).1 (held c k)))

    pub Bounded-Joined : Bounded roots t
    unfolding ForwardRoot
    Bounded-Joined = record {
      sets = w;
      grows = λ x y h. (iff x y).1 (base (inl (b.grows x y h)));
      bounded = λ on d i f x h. b.bounded on d i f x (class_stays on d i f x h);
      roots_of = λ q. (
        λ i.
            let (on, forward) = (b.roots_of q).0 i in
            let (d, j, f, root) = forward in
            (
              on,
              (
                d,
                j,
                f,
                Root-stable o NodeKey-discrete s t b.sets w q (node_of d) (both on d j f) root,
              ),
            ),
        λ h.
            let (on, forward) = h in
            let (d, j, f, root) = forward in
            (b.roots_of q).1 (
              on,
              (
                d,
                j,
                f,
                Root-stable o NodeKey-discrete t s w b.sets q (node_of d)
                    (λ x. let (to, from) = both on d j f x in (from, to)) root,
              ),
            ),
      );
    }
      where
        both :
            boundaries ≡ true
            → (d : Delivery) → In d deliveries
            → d.is_forward ≡ true
            → (x : NodeKey) → Same s x (node_of d) ↔ Same t x (node_of d)
        both on d i f x = (λ h. (iff x (node_of d)).1 (base (inl h)), class_stays on d i f x)
