-- ===== src/Threading/Conversations/Threads.antt =====
-- A round of the loop over the provider's groups (`join_group`) joins the members of one thread whose
-- components hold no forward.
use supamail.Common.{◌≡◌, sym, ◌↔◌, ◌⊎◌, inl, inr, Bool, false, some, List, [], ℕ, subst, arith}
use supamail.Common.Keys.{In}
use supamail.Common.Order.{StrictOrder}
use supamail.Threading.DisjointSet.{Sets}
use supamail.Threading.DisjointSet.Roots.{IsSets}
use supamail.Threading.DisjointSet.Classes.{base, Closure-bind, Same}
use supamail.Threading.Links.{NodeKey, NodeKey-discrete, Delivery, node_key}
use supamail.Threading.Links.Order.{DistinctBy}
use supamail.Threading.Conversations.{Providing, members, mark_members, join_group}
use supamail.Threading.Conversations.Edges.{Alike, Alike-Same}
use supamail.Threading.Conversations.Groups.{members-In}
use supamail.Threading.Conversations.Eligible.{Outside, eligible_lem, Outside-Held}
use supamail.Threading.Conversations.Connections.{
  Joined, PairOf, Connected, connect_eligible_lem, mark_members-sets,
}
use supamail.Threading.Conversations.Bounded.{HeldKey, Bounded, Held-Bounded, Bounded-Joined}

-- Both are members.
abbrev pub InBoth : List Delivery → Delivery → Delivery → Type 0
InBoth group a b = In a group × In b group

module _ (o : StrictOrder NodeKey) (by_key : StrictOrder (List ℕ)) (deliveries : List Delivery)
    (boundaries : Bool) (start : Sets NodeKey) where
  abbrev pub Key : Delivery → NodeKey
  Key d = node_key deliveries d

  -- Two deliveries of this kind, in components without a forward.
  abbrev pub Freely : (Delivery → Delivery → Type 0) → NodeKey → NodeKey → Type 0
  Freely R x y =
      (a : Delivery) × (b : Delivery) × R a b
      × (¬ HeldKey o by_key deliveries boundaries start (Key a))
      × (¬ HeldKey o by_key deliveries boundaries start (Key b))
      × (x ≡ Key a)
      × (y ≡ Key b)

  Freely-free :
      (R : Delivery → Delivery → Type 0) (x y : NodeKey)
      → Freely R x y
      → (¬ HeldKey o by_key deliveries boundaries start x)
        × (¬ HeldKey o by_key deliveries boundaries start y)
  Freely-free R x y (a, b, r, free_a, free_b, from, to) = (
    subst (λ z. ¬ HeldKey o by_key deliveries boundaries start z) (sym from) free_a,
    subst (λ z. ¬ HeldKey o by_key deliveries boundaries start z) (sym to) free_b,
  )

  abbrev pub Joins : (Delivery → Delivery → Type 0) → Sets NodeKey → NodeKey → NodeKey → Type 0
  Joins R s = Joined o by_key deliveries (Freely R) s

  -- What a part of the loop leaves.
  pub record Provided (roots : List NodeKey) (R : Delivery → Delivery → Type 0) (s t : Sets NodeKey)
      : Type 0 where
    pub bounds : Bounded o by_key deliveries boundaries start roots t
    pub classes : (x y : NodeKey) → Same t x y ↔ Joins R s x y

  module _ (distinct : DistinctBy (λ d. d.key) deliveries) (roots : List NodeKey)
      (empty : boundaries ≡ false → roots ≡ []) where
    eligible-free :
        (group es ms : List Delivery) (s : Sets NodeKey)
        → Bounded o by_key deliveries boundaries start roots s
        → ((m : Delivery) → In m ms ↔ In m group)
        → ((m : Delivery) → In m es ↔ (In m ms × Outside o by_key deliveries roots s m))
        → (m : Delivery)
        → In m es ↔ (In m group × (¬ HeldKey o by_key deliveries boundaries start (Key m)))
    eligible-free group es ms s b members_iff iff m = ground (
      arith,
      iff m,
      members_iff m,
      Outside-Held o by_key deliveries boundaries roots s m b.roots_of,
      Held-Bounded o by_key deliveries boundaries start roots s b (Key m),
    )

    pub join_group_lem :
        (group : List Delivery) (p : Providing)
        → ((m : Delivery) → In m group → In m deliveries)
        → Bounded o by_key deliveries boundaries start roots p.sets
        → (q : Providing) × (join_group o by_key deliveries boundaries roots group p ≡ some q)
          × Provided roots (InBoth group) p.sets q.sets
    unfolding join_group
    join_group_lem group p all b =
        let ms = members o by_key deliveries group in
        let (es, t, e, a, iff) =
          eligible_lem o by_key deliveries boundaries roots ms p.sets b.sets empty in
        let r = mark_members o by_key deliveries es ms (record p { sets = t }) in
        let same_sets : r.sets ≡ t =
          mark_members-sets o by_key deliveries es ms (record p { sets = t }) in
        let (q, f, c) =
          connect_eligible_lem o by_key deliveries es r (subst (IsSets o) (sym same_sets) a.sets) in
        let connected = subst (λ z. Connected o by_key deliveries es z q.sets) same_sets c in
        let free =
          eligible-free group es ms p.sets b (members-In deliveries distinct o by_key group all)
            iff in
        let (to, from) = edges group es p.sets t b.sets a free in
        let classes : (x y : NodeKey) → Same q.sets x y ↔ Joins (InBoth group) p.sets x y = λ x y. (
          λ h. Closure-bind _ _ x y to ((connected.classes x y).0 h),
          λ h. (connected.classes x y).1 (Closure-bind _ _ x y from h),
        ) in
        (
          q,
          rw (e, join_group) f,
          record {
            bounds =
                Bounded-Joined o by_key deliveries boundaries start roots p.sets q.sets
                  (Freely (InBoth group)) b connected.sets classes (Freely-free (InBoth group));
            classes = classes;
          },
        )
      where
        edges :
            (group es : List Delivery) (s t : Sets NodeKey)
            → IsSets o s
            → Alike o NodeKey-discrete s t
            → ((m : Delivery)
                → In m es ↔ (In m group × (¬ HeldKey o by_key deliveries boundaries start (Key m))))
            → ((x y : NodeKey)
                → Same t x y ⊎ PairOf o by_key deliveries es x y
                → Joins (InBoth group) s x y)
              × ((x y : NodeKey)
                  → Same s x y ⊎ Freely (InBoth group) x y
                  → Joined o by_key deliveries (PairOf o by_key deliveries es) t x y)
        edges group es s t v a free = (to, from)
          where
            to :
                (x y : NodeKey)
                → Same t x y ⊎ PairOf o by_key deliveries es x y
                → Joins (InBoth group) s x y
            to x y (inl before) = base (inl ((Alike-Same o NodeKey-discrete s t v a x y).1 before))
            to x y (inr (c, d, i, j, from, into)) = base (
                inr (
                  c,
                  d,
                  (((free c).0 i).0, ((free d).0 j).0),
                  ((free c).0 i).1,
                  ((free d).0 j).1,
                  from,
                  into,
                ))

            from :
                (x y : NodeKey)
                → Same s x y ⊎ Freely (InBoth group) x y
                → Joined o by_key deliveries (PairOf o by_key deliveries es) t x y
            from x y (inl before) =
                base (inl ((Alike-Same o NodeKey-discrete s t v a x y).0 before))
            from x y (inr (c, d, r, free_c, free_d, from', into)) =
                base (inr (c, d, (free c).1 (r.0, free_c), (free d).1 (r.1, free_d), from', into))
