-- ===== src/Threading/Conversations/Providers.antt =====
-- The loop over the provider's groups joins the deliveries of each thread whose components hold no forward.
use supamail.Common.{
  ◌≡◌, refl, ◌↔◌, ◌⊎◌, inl, inr, Bool, true, false, none, some, List, [], ◌∷◌, ℕ, arith,
}
use supamail.Common.Keys.{In}
use supamail.Common.Order.{StrictOrder}
use supamail.Threading.DisjointSet.{Sets}
use supamail.Threading.DisjointSet.Roots.{IsSets}
use supamail.Threading.DisjointSet.Classes.{base, Closure-bind, Same}
use supamail.Threading.Links.{NodeKey, NodeKey-discrete, Delivery, node_key}
use supamail.Threading.Links.Order.{DistinctBy}
use supamail.Threading.Conversations.{
  Groups, Providing, join_groups, join_providers, provider_groups,
}
use supamail.Threading.Conversations.Edges.{Alike, Alike-Same, Same-equivalence}
use supamail.Threading.Conversations.Groups.{Paired, Shared, provider_groups-Paired}
use supamail.Threading.Conversations.Forwards.{RootsOf, forward_components_lem, ForwardRoot-Alike}
use supamail.Threading.Conversations.Bounded.{Bounded}
use supamail.Threading.Conversations.Threads.{Freely, InBoth, Joins, Provided, join_group_lem}

module _ (o : StrictOrder NodeKey) (by_key : StrictOrder (List ℕ)) (deliveries : List Delivery)
    (boundaries : Bool) (start : Sets NodeKey) where
  module _ (distinct : DistinctBy (λ d. d.key) deliveries) (roots : List NodeKey)
      (empty : boundaries ≡ false → roots ≡ []) where
    join_groups_lem :
        (groups : Groups) (p : Providing)
        → ((a b : Delivery) → Paired groups a b → In a deliveries)
        → Bounded o by_key deliveries boundaries start roots p.sets
        → (q : Providing) × (join_groups o by_key deliveries boundaries roots groups p ≡ some q)
          × Provided o by_key deliveries boundaries start roots (Paired groups) p.sets q.sets
    unfolding join_groups
    join_groups_lem [] p all b = (p, refl, record { bounds = b; classes = unchanged })
      where
        unchanged :
            (x y : NodeKey)
            → Same p.sets x y ↔ Joins o by_key deliveries boundaries start (Paired []) p.sets x y
        unchanged x y = (
          λ h. base (inl h),
          λ h. Same-equivalence o NodeKey-discrete p.sets b.sets x y (
              Closure-bind
                (λ a c.
                  Same p.sets a c ⊎ Freely o by_key deliveries boundaries start (Paired []) a c)
                (Same p.sets) x y
                (λ a c e. elim e [ inl before ↦ base before | inr pair ↦ absurd pair.2 ]) h),
        )
    join_groups_lem ((thread, group) ∷ groups) p all b =
        let (q, e, first) =
          join_group_lem o by_key deliveries boundaries start distinct roots empty group p
            (λ m i. all m m (inl (i, i))) b in
        let (r, f, rest) = join_groups_lem groups q (λ a c h. all a c (inr h)) first.bounds in
        (
          r,
          rw (e, join_groups) f,
          record { bounds = rest.bounds; classes = both q r first.classes rest.classes },
        )
      where
        both :
            (q r : Providing)
            → ((x y : NodeKey)
                → Same q.sets x y
                  ↔ Joins o by_key deliveries boundaries start (InBoth group) p.sets x y)
            → ((x y : NodeKey)
                → Same r.sets x y
                  ↔ Joins o by_key deliveries boundaries start (Paired groups) q.sets x y)
            → (x y : NodeKey)
            → Same r.sets x y
              ↔ Joins o by_key deliveries boundaries start
                  (Paired ((thread, group) ∷ groups))
                  p.sets
                  x
                  y
        both q r one more x y = (
          λ h. Closure-bind _ _ x y out ((more x y).0 h),
          λ h. (more x y).1 (Closure-bind _ _ x y into h),
        )
          where
            wider :
                (a c : NodeKey)
                → Same p.sets a c ⊎ Freely o by_key deliveries boundaries start (InBoth group) a c
                → Joins o by_key deliveries boundaries start
                    (Paired ((thread, group) ∷ groups))
                    p.sets
                    a
                    c
            wider a c (inl before) = base (inl before)
            wider a c (inr (d, e, r, i, j, k, l)) = base (inr (d, e, inl r, i, j, k, l))

            out :
                (a c : NodeKey)
                → Same q.sets a c ⊎ Freely o by_key deliveries boundaries start (Paired groups) a c
                → Joins o by_key deliveries boundaries start
                    (Paired ((thread, group) ∷ groups))
                    p.sets
                    a
                    c
            out a c (inl before) = Closure-bind _ _ a c wider ((one a c).0 before)
            out a c (inr (d, e, r, i, j, k, l)) = base (inr (d, e, inr r, i, j, k, l))

            into :
                (a c : NodeKey)
                → Same p.sets a c
                  ⊎ Freely o by_key deliveries boundaries start
                      (Paired ((thread, group) ∷ groups))
                      a
                      c
                → Joins o by_key deliveries boundaries start (Paired groups) q.sets a c
            into a c (inl before) = base (inl ((one a c).1 (base (inl before))))
            into a c (inr (d, e, inl r, i, j, k, l)) =
                base (inl ((one a c).1 (base (inr (d, e, r, i, j, k, l)))))
            into a c (inr (d, e, inr r, i, j, k, l)) = base (inr (d, e, r, i, j, k, l))

  -- The loop over the provider's groups ends. The classes that it leaves are those of the components
  -- before and the pairs that share a thread, in components without a forward; the class of a forward is its component.
  pub join_providers_lem :
      DistinctBy (λ d. d.key) deliveries
      → IsSets o start
      → (p : Providing) × (join_providers o by_key deliveries boundaries start ≡ some p)
        × IsSets o p.sets
        × ((x y : NodeKey)
            → Same p.sets x y
              ↔ Joins o by_key deliveries boundaries start (Shared deliveries) start x y)
        × ((x : NodeKey) (d : Delivery)
            → boundaries ≡ true
            → In d deliveries
            → d.is_forward ≡ true
            → Same p.sets x (node_key deliveries d)
            → Same start x (node_key deliveries d))
  unfolding join_providers
  join_providers_lem distinct v =
      let (roots, t, e, a, iff, empty) =
        forward_components_lem o by_key deliveries boundaries start v in
      let groups = provider_groups deliveries [] in
      let paired = provider_groups-Paired deliveries in
      let (p, f, done) =
        join_groups_lem distinct roots empty groups
          (record { sets = t; group_size = λ k. none; excluded = []; connected = [] })
          (λ c d h. ((paired c d).0 h).0) (at_start roots t a iff) in
      (
        p,
        rw (e, join_providers) f,
        done.bounds.sets,
        λ x y. (
          λ h. Closure-bind _ _ x y (to t a) ((done.classes x y).0 h),
          λ h. (done.classes x y).1 (Closure-bind _ _ x y (from t a) h),
        ),
        λ x d on i f. done.bounds.bounded on d i f x,
      )
    where
      at_start :
          (roots : List NodeKey) (t : Sets NodeKey)
          → Alike o NodeKey-discrete start t
          → RootsOf o by_key deliveries boundaries roots start
          → Bounded o by_key deliveries boundaries start roots t
      at_start roots t a iff = record {
        sets = a.sets;
        grows = λ x y. (Alike-Same o NodeKey-discrete start t v a x y).0;
        bounded =
            λ on d i f x. (Alike-Same o NodeKey-discrete start t v a x (node_key deliveries d)).1;
        roots_of = λ q.
            ground (arith, iff q, ForwardRoot-Alike o by_key deliveries deliveries start t v a q);
      }

      to :
          (t : Sets NodeKey)
          → Alike o NodeKey-discrete start t
          → (x y : NodeKey)
          → Same t x y
            ⊎ Freely o by_key deliveries boundaries start
                (Paired (provider_groups deliveries []))
                x
                y
          → Joins o by_key deliveries boundaries start (Shared deliveries) start x y
      to t a x y (inl before) =
          base (inl ((Alike-Same o NodeKey-discrete start t v a x y).1 before))
      to t a x y (inr (d, e, r, i, j, k, l)) =
          base (inr (d, e, (provider_groups-Paired deliveries d e).0 r, i, j, k, l))

      from :
          (t : Sets NodeKey)
          → Alike o NodeKey-discrete start t
          → (x y : NodeKey)
          → Same start x y ⊎ Freely o by_key deliveries boundaries start (Shared deliveries) x y
          → Joins o by_key deliveries boundaries start
              (Paired (provider_groups deliveries []))
              t
              x
              y
      from t a x y (inl before) =
          base (inl ((Alike-Same o NodeKey-discrete start t v a x y).0 before))
      from t a x y (inr (d, e, r, i, j, k, l)) =
          base (inr (d, e, (provider_groups-Paired deliveries d e).1 r, i, j, k, l))
