-- ===== src/Threading/Conversations/Connections.antt =====
-- The unions within one group of the provider join all its eligible members.
use supamail.Common.{
  ◌≡◌, refl, sym, ap, ◌∙◌, ◌↔◌, ◌⊎◌, inl, inr, some, List, [], ◌∷◌, ℕ, subst, Option-cases,
}
use supamail.Common.Keys.{In, set_add}
use supamail.Common.Order.{StrictOrder}
use supamail.Threading.DisjointSet.{Sets, union, union_all}
use supamail.Threading.DisjointSet.Roots.{IsSets}
use supamail.Threading.DisjointSet.Classes.{
  Closure, base, same, flip, chain, Closure-bind, Same, Extended, union_all-Same,
}
use supamail.Threading.Links.{NodeKey, NodeKey-discrete, Text-discrete, Delivery, node_key}
use supamail.Threading.Conversations.{Providing, mark_members, connect, connect_eligible}
use supamail.Threading.Conversations.Edges.{Closure-iff, Same-equivalence}

module _ (o : StrictOrder NodeKey) (by_key : StrictOrder (List ℕ))
    (deliveries : List Delivery) where
  abbrev pub node : Delivery → NodeKey
  node d = node_key deliveries d

  -- Two members of these are joined.
  abbrev pub PairOf : List Delivery → NodeKey → NodeKey → Type 0
  PairOf es x y = (a : Delivery) × (b : Delivery) × In a es × In b es × (x ≡ node a) × (y ≡ node b)

  abbrev pub Joined : (NodeKey → NodeKey → Type 0) → Sets NodeKey → NodeKey → NodeKey → Type 0
  Joined P s = Closure (λ x y. Same s x y ⊎ P x y)

  connections : NodeKey → List Delivery → List (NodeKey × NodeKey)
  connections first [] = []
  connections first (m ∷ ms) = (first, node m) ∷ connections first ms

  connect-union_all :
      (first : NodeKey) (ms : List Delivery) (p : Providing) (t : Sets NodeKey)
      → union_all NodeKey-discrete o (connections first ms) p.sets ≡ some t
      → (q : Providing) × (connect o by_key deliveries first ms p ≡ some q) × (q.sets ≡ t)
  unfolding connect connections union_all
  connect-union_all first [] p t e = (p, refl, cc)
  connect-union_all first (m ∷ ms) p t e =
      elim (Option-cases (union NodeKey-discrete o first (node m) p.sets)) [
        | inl stuck ↦ let f = rw (stuck, connections, union_all) at e in absurd cc
        | inr (u, united) ↦
            let (q, f, sets) =
              connect-union_all first ms
                (record p { sets = u; connected = set_add Text-discrete m.key p.connected }) t
                (rw (united, connections, union_all) at e) in
            (q, rw (united, connect) f, sets)
      ]

  connections-In :
      (first : NodeKey) (ms : List Delivery) (x y : NodeKey)
      → In (x, y) (connections first ms) ↔ ((x ≡ first) × ((m : Delivery) × In m ms × (y ≡ node m)))
  unfolding connections
  connections-In first [] x y = (λ i. absurd i, λ h. h.1.1)
  connections-In first (m ∷ ms) x y =
      let rest = connections-In first ms x y in
      (
        λ i. elim i [
          | inl here ↦ (
            ap (λ (z : NodeKey × NodeKey). z.0) here,
            (m, inl refl, ap (λ (z : NodeKey × NodeKey). z.1) here),
          )
          | inr more ↦
              let (from, member) = rest.0 more in let (e, j, to) = member in (from, (e, inr j, to))
        ],
        λ h.
            let (from, member) = h in
            let (e, j, to) = member in
            elim j [
              | inl alike ↦ inl (
                  ap (λ (z : NodeKey). (z, y)) from
                  ∙ ap (λ (z : NodeKey). (first, z)) (to ∙ ap node alike))
              | inr more ↦ inr (rest.1 (from, (e, more, to)))
            ],
      )

  pub mark_members-sets :
      (es ms : List Delivery) (p : Providing)
      → (mark_members o by_key deliveries es ms p).sets ≡ p.sets
  unfolding mark_members
  mark_members-sets es [] p = refl
  mark_members-sets es (m ∷ ms) p = mark_members-sets es ms _

  -- The classes after the members of a group are connected.
  pub record Connected (es : List Delivery) (s t : Sets NodeKey) : Type 0 where
    pub sets : IsSets o t
    pub classes : (x y : NodeKey) → Same t x y ↔ Joined (PairOf es) s x y

  no_pairs :
      (es : List Delivery) (s : Sets NodeKey)
      → IsSets o s
      → ((x y : NodeKey) → PairOf es x y → x ≡ y)
      → Connected es s s
  no_pairs es s v alone = record {
    sets = v;
    classes = λ x y. (
      λ h. base (inl h),
      λ h. Same-equivalence o NodeKey-discrete s v x y (
          Closure-bind (λ a b. Same s a b ⊎ PairOf es a b) (Same s) x y
            (λ a b e. elim e [
              | inl before ↦ base before
              | inr pair ↦ subst (Closure (Same s) a) (alone a b pair) same
            ])
            h),
    );
  }

  abbrev Connecting : NodeKey → List Delivery → Sets NodeKey → NodeKey → NodeKey → Type 0
  Connecting first ms s = Extended o NodeKey-discrete s (connections first ms)

  -- What the unions of a group link is a pair of members, and the other way round.
  connections-PairOf :
      (e : Delivery) (ms : List Delivery) (s : Sets NodeKey)
      → In e ms
      → (x y : NodeKey) → Connecting (node e) ms s x y
      → Joined (PairOf ms) s x y
  connections-PairOf e ms s own x y (inl before) = base (inl before)
  connections-PairOf e ms s own x y (inr op) =
      let (from, member) = (connections-In (node e) ms x y).0 op in
      let (m, i, to) = member in base (inr (e, m, own, i, from, to))

  PairOf-connections :
      (e : Delivery) (ms : List Delivery) (s : Sets NodeKey)
      → (x y : NodeKey) → Same s x y ⊎ PairOf ms x y
      → Closure (Connecting (node e) ms s) x y
  PairOf-connections e ms s x y (inl before) = base (inl before)
  PairOf-connections e ms s x y (inr (a, b, i, j, from, to)) =
      subst (λ z. Closure (Connecting (node e) ms s) z y) (sym from)
        (subst (Closure (Connecting (node e) ms s) (node a)) (sym to)
          (chain (flip (edge a i)) (edge b j)))
    where
      edge : (m : Delivery) → In m ms → Closure (Connecting (node e) ms s) (node e) (node m)
      edge m i = base (inr ((connections-In (node e) ms (node e) (node m)).1 (refl, (m, i, refl))))

  pub connect_eligible_lem :
      (es : List Delivery) (p : Providing)
      → IsSets o p.sets
      → (q : Providing) × (connect_eligible o by_key deliveries es p ≡ some q)
        × Connected es p.sets q.sets
  unfolding connect_eligible
  connect_eligible_lem [] p v = (p, refl, no_pairs [] p.sets v (λ x y h. absurd h.2))
  connect_eligible_lem (e ∷ []) p v = (p, refl, no_pairs (e ∷ []) p.sets v one)
    where
      one : (x y : NodeKey) → PairOf (e ∷ []) x y → x ≡ y
      one x y (a, b, inl i, inl j, from, to) = from ∙ ap node (i ∙ sym j) ∙ sym to
      one x y (a, b, inr i, j, from, to) = absurd i
      one x y (a, b, inl i, inr j, from, to) = absurd j
  connect_eligible_lem (e ∷ f ∷ es) p v =
      let ms = e ∷ f ∷ es in
      let ops = connections (node e) ms in
      let (t, united, w, iff) = union_all-Same o NodeKey-discrete ops p.sets v in
      let (q, g, sets) = connect-union_all (node e) ms p t united in
      let pairs =
        Closure-iff (Extended o NodeKey-discrete p.sets ops)
          (λ x y. Same p.sets x y ⊎ PairOf ms x y) (connections-PairOf e ms p.sets (inl refl))
          (PairOf-connections e ms p.sets) in
      (
        q,
        g,
        subst (Connected ms p.sets) (sym sets) (record {
          sets = w;
          classes = λ x y. (λ h. (pairs x y).0 ((iff x y).0 h), λ h. (iff x y).1 ((pairs x y).1 h));
        }),
      )
