-- ===== src/Threading/Conversations/Account.antt =====
-- The conversations of an account by references and by the provider's threads.
use supamail.Common.{◌≡◌, refl, ◌↔◌, ◌⊎◌, inl, inr, Bool, true, some, List, ℕ, subst}
use supamail.Common.Keys.{In}
use supamail.Common.Order.{StrictOrder}
use supamail.Threading.DisjointSet.{Sets, find}
use supamail.Threading.DisjointSet.Roots.{IsSets}
use supamail.Threading.DisjointSet.Classes.{Closure, base, Closure-bind, Same}
use supamail.Threading.Graph.Forest.{IsForest}
use supamail.Threading.Links.{AccountGraph, NodeKey, NodeKey-discrete, Delivery, node_key}
use supamail.Threading.Links.Order.{DistinctBy}
use supamail.Threading.Conversations.{Providing, join_account}
use supamail.Threading.Conversations.Edges.{components_lem, find-Same, Same-of_find}
use supamail.Threading.Conversations.Groups.{Shared}
use supamail.Threading.Conversations.Forwards.{Held}
use supamail.Threading.Conversations.Threads.{Freely}
use supamail.Threading.Conversations.Providers.{join_providers_lem}
use supamail.Threading.Links.Account.{link_account-IsWhole}

-- One component: a chain of parents and children.
abbrev pub ByParents : AccountGraph → NodeKey → NodeKey → Type 0
ByParents g = Closure (λ x y. g.parent x ≡ some y)

module _ (o : StrictOrder NodeKey) (by_key : StrictOrder (List ℕ))
    (precedes : Delivery → Delivery → Bool) (boundaries : Bool) (deliveries : List Delivery)
    (distinct : DistinctBy (λ d. d.key) deliveries) where
  -- A forward is in the component, from version 3 on.
  abbrev pub HasForward : AccountGraph → NodeKey → Type 0
  HasForward g x =
      (boundaries ≡ true)
      × ((d : Delivery) × In d deliveries
          × (d.is_forward ≡ true)
          × ByParents g x (node_key deliveries d))

  -- A link of a conversation: from a node to its parent, or between two deliveries that share a
  -- thread of the provider and whose components have no forward.
  abbrev pub Link : AccountGraph → NodeKey → NodeKey → Type 0
  Link g x y =
      (g.parent x ≡ some y)
      ⊎ ((a : Delivery) × (b : Delivery) × Shared deliveries a b
          × (¬ HasForward g (node_key deliveries a))
          × (¬ HasForward g (node_key deliveries b))
          × (x ≡ node_key deliveries a)
          × (y ≡ node_key deliveries b))

  record JoinedAccount (g : AccountGraph) (p : Providing) : Type 0 where
    pub returned : join_account o by_key precedes boundaries deliveries ≡ some (g, p)
    pub forest : IsForest g
    pub sets : IsSets o p.sets
    pub classes : (x y : NodeKey) → Same p.sets x y ↔ Closure (Link g) x y
    pub bounded :
        (x : NodeKey) (d : Delivery)
        → boundaries ≡ true
        → In d deliveries
        → d.is_forward ≡ true
        → Same p.sets x (node_key deliveries d)
        → ByParents g x (node_key deliveries d)

  joined_account : (g : AccountGraph) × (p : Providing) × JoinedAccount g p
  unfolding join_account
  joined_account =
      let (outs, g, e, whole, _, _) =
        link_account-IsWhole precedes boundaries deliveries distinct in
      let (s, f, v, components_iff) = components_lem o NodeKey-discrete g whole.owned in
      let (p, h, sets, iff, bounded) =
        join_providers_lem o by_key deliveries boundaries s distinct v in
      (
        g,
        p,
        record {
          returned = rw (e, join_account, f, h) refl;
          forest = whole.forest;
          sets = sets;
          classes = λ x y. (
            λ i. Closure-bind _ _ x y (to g s components_iff) ((iff x y).0 i),
            λ i. (iff x y).1 (Closure-bind _ _ x y (from g s components_iff) i),
          );
          bounded = λ x d on i f same_class.
              (components_iff x (node_key deliveries d)).0 (bounded x d on i f same_class);
        },
      )
    where
      held :
          (g : AccountGraph) (s : Sets NodeKey)
          → ((x y : NodeKey) → Same s x y ↔ ByParents g x y)
          → (x : NodeKey) → Held o by_key deliveries boundaries s x ↔ HasForward g x
      held g s iff x = (
        λ h.
            let (on, forward) = h in
            let (d, i, f, one) = forward in (on, (d, i, f, (iff x (node_key deliveries d)).0 one)),
        λ h.
            let (on, forward) = h in
            let (d, i, f, one) = forward in (on, (d, i, f, (iff x (node_key deliveries d)).1 one)),
      )

      to :
          (g : AccountGraph) (s : Sets NodeKey)
          → ((x y : NodeKey) → Same s x y ↔ ByParents g x y)
          → (x y : NodeKey)
          → Same s x y ⊎ Freely o by_key deliveries boundaries s (Shared deliveries) x y
          → Closure (Link g) x y
      to g s iff x y (inl one) = Closure-bind _ _ x y (λ a b h. base (inl h)) ((iff x y).0 one)
      to g s iff x y (inr (a, b, r, free_a, free_b, k, l)) = base (
          inr (
            a,
            b,
            r,
            λ h. free_a ((held g s iff (node_key deliveries a)).1 h),
            λ h. free_b ((held g s iff (node_key deliveries b)).1 h),
            k,
            l,
          ))

      from :
          (g : AccountGraph) (s : Sets NodeKey)
          → ((x y : NodeKey) → Same s x y ↔ ByParents g x y)
          → (x y : NodeKey) → Link g x y
          → Closure
              (λ c d. Same s c d ⊎ Freely o by_key deliveries boundaries s (Shared deliveries) c d)
              x
              y
      from g s iff x y (inl parent) = base (inl ((iff x y).1 (base parent)))
      from g s iff x y (inr (a, b, r, free_a, free_b, k, l)) = base (
          inr (
            a,
            b,
            r,
            λ h. free_a ((held g s iff (node_key deliveries a)).0 h),
            λ h. free_b ((held g s iff (node_key deliveries b)).0 h),
            k,
            l,
          ))

  joined_at :
      (g : AccountGraph) (p : Providing)
      → join_account o by_key precedes boundaries deliveries ≡ some (g, p)
      → JoinedAccount g p
  joined_at g p e =
      let (g', p', j) = joined_account in
      let returned = j.returned in
      let pair : ◌≡◌ {A = AccountGraph × Providing} (g', p') (g, p) = cc in
      subst (λ (z : AccountGraph × Providing). JoinedAccount z.0 z.1) pair j

  -- For deliveries with different keys: linking an account and joining its conversations returns a
  -- graph, which is a forest, and the disjoint set. Two calls of `find` on two nodes return one root
  -- exactly if the nodes are connected by links: from a node to its parent, or between two
  -- deliveries that share a thread of the provider and whose components, from version 3 on, hold no forward.
  pub join_account_lem :
      (x y : NodeKey)
      → (g : AccountGraph) × (p : Providing) × (rx : NodeKey) × (t : Sets NodeKey) × (ry : NodeKey)
        × (u : Sets NodeKey) × (join_account o by_key precedes boundaries deliveries ≡ some (g, p))
        × IsForest g
        × (find NodeKey-discrete x p.sets ≡ some (rx, t))
        × (find NodeKey-discrete y t ≡ some (ry, u))
        × ((rx ≡ ry) ↔ Closure (Link g) x y)
  join_account_lem x y =
      let (g, p, j) = joined_account in
      let (rx, t, ry, u, e, f, iff) = find-Same o NodeKey-discrete p.sets x y j.sets in
      let classes = j.classes x y in
      (
        g,
        p,
        rx,
        t,
        ry,
        u,
        j.returned,
        j.forest,
        e,
        f,
        (λ h. classes.0 (iff.0 h), λ h. iff.1 (classes.1 h)),
      )

  -- From version 3 on, for deliveries with different keys: a node that `find` puts into the
  -- conversation of a forward is connected with it by parents alone, whatever threads the provider gives.
  pub join_account-forward :
      (g : AccountGraph) (p : Providing) (x r : NodeKey) (t u : Sets NodeKey) (d : Delivery)
      → join_account o by_key precedes boundaries deliveries ≡ some (g, p)
      → boundaries ≡ true
      → In d deliveries
      → d.is_forward ≡ true
      → find NodeKey-discrete x p.sets ≡ some (r, t)
      → find NodeKey-discrete (node_key deliveries d) t ≡ some (r, u)
      → ByParents g x (node_key deliveries d)
  join_account-forward g p x r t u d e on i f ex ed =
      let j = joined_at g p e in
      j.bounded x d on i f
        (Same-of_find o NodeKey-discrete p.sets t u x (node_key deliveries d) r j.sets ex ed)
