-- ===== src/Threading/Conversations/Edges.antt =====
-- The components of a linked graph are the classes of its parent edges.
use supamail.Common.{
  ◌≡◌, refl, sym, ap, ◌∙◌, ◌↔◌, ◌⊎◌, inl, inr, Option, none, some, List, [], ◌∷◌, subst, arith,
  Option-cases, true,
}
use supamail.Common.Keys.{In}
use supamail.Common.Order.{StrictOrder}
use supamail.Threading.Graph.{Graph}
use supamail.Threading.DisjointSet.{Sets, empty_sets, get_parent, add, find, union, union_all}
use supamail.Threading.DisjointSet.Roots.{
  Root, top, Root-is_Root, Root-first, Root-of_Root, Root-unique, IsSets, add-IsSets, find_lem,
  Root-exists,
}
use supamail.Threading.DisjointSet.Classes.{
  Closure, base, same, flip, chain, Closure-bind, Same, Extended, union_all-Same, empty_sets-IsSets,
}
use supamail.Threading.Conversations.{add_all, union_parent, union_parents, components}

-- Two relations with the same pairs generate the same equivalence.
pub Closure-iff :
    {K : Type 0} (E F : K → K → Type 0)
    → ((x y : K) → E x y → Closure F x y)
    → ((x y : K) → F x y → Closure E x y)
    → (x y : K) → Closure E x y ↔ Closure F x y
Closure-iff E F f g x y = (Closure-bind E F x y f, Closure-bind F E x y g)

-- What both ends of every pair share, the whole class shares.
pub Closure-stays :
    {K : Type 0} (E : K → K → Type 0) (P : K → Type 0)
    → ((x y : K) → E x y → P x ↔ P y)
    → (x y : K) → Closure E x y
    → P x ↔ P y
Closure-stays E P f x y (base e) = f x y e
Closure-stays E P f x y same = (λ p. p, λ p. p)
Closure-stays E P f x y (flip h) = let (to, from) = Closure-stays E P f y x h in (from, to)
Closure-stays E P f x y (chain {b = m} h k) =
    let (to, from) = Closure-stays E P f x m h in
    let (on, back) = Closure-stays E P f m y k in (λ p. on (to p), λ p. from (back p))

module _ {K : Type 0} (o : StrictOrder K) (dec : Discrete K) where
  -- Sets in which every key kept its root, as after `find`.
  pub record Alike (s t : Sets K) : Type 0 where
    pub sets : IsSets o t
    pub roots : (r k : K) → Root s r k → Root t r k

  pub Alike-trans : (s t u : Sets K) → Alike s t → Alike t u → Alike s u
  Alike-trans s t u a b = record { sets = b.sets; roots = λ r k h. b.roots r k (a.roots r k h) }

  -- The roots after are the roots before.
  pub Alike-back : (s t : Sets K) → IsSets o s → Alike s t → (r k : K) → Root t r k → Root s r k
  Alike-back s t v a r k h =
      let (q, hq) = Root-exists o dec s k v in
      subst (λ x. Root s x k) (Root-unique t q r k (a.roots q k hq) h) hq

  pub Alike-Same : (s t : Sets K) → IsSets o s → Alike s t → (x y : K) → Same s x y ↔ Same t x y
  Alike-Same s t v a x y = (
    λ h. let (r, p, q) = h in (r, a.roots r x p, a.roots r y q),
    λ h. let (r, p, q) = h in (r, Alike-back s t v a r x p, Alike-back s t v a r y q),
  )

  pub find-Alike :
      (s : Sets K) (k : K)
      → IsSets o s
      → (r : K) × (t : Sets K) × (find dec k s ≡ some (r, t)) × Alike s t × Root s r k
  find-Alike s k v =
      let (r, t, e, sets, root, keeps, _, _) = find_lem o dec s k v in
      let a : Alike s t = record { sets = sets; roots = keeps } in
      (r, t, e, a, Alike-back s t v a r k root)

  -- Two calls of `find` tell whether two keys are in one class.
  pub find-Same :
      (s : Sets K) (a b : K)
      → IsSets o s
      → (ra : K) × (t : Sets K) × (rb : K) × (u : Sets K) × (find dec a s ≡ some (ra, t))
        × (find dec b t ≡ some (rb, u))
        × ((ra ≡ rb) ↔ Same s a b)
  find-Same s a b v =
      let (ra, t, e, first, root_a) = find-Alike s a v in
      let (rb, u, f, second, root_b') = find-Alike t b first.sets in
      let root_b = Alike-back s t v first rb b root_b' in
      (
        ra,
        t,
        rb,
        u,
        e,
        f,
        (
          λ alike. (rb, subst (λ z. Root s z a) alike root_a, root_b),
          λ h. let (r, p, q) = h in Root-unique s ra r a root_a p ∙ Root-unique s r rb b q root_b,
        ),
      )

  found_pair :
      (r q : K) (t u : Sets K)
      → ◌≡◌ {A = Option (K × Sets K)} (some (r, t)) (some (q, u))
      → (r ≡ q) × (t ≡ u)
  found_pair r q t u e =
      let pair : ◌≡◌ {A = K × Sets K} (r, t) (q, u) = cc in
      (ap (λ (z : K × Sets K). z.0) pair, ap (λ (z : K × Sets K). z.1) pair)

  pub Same-of_find :
      (s t u : Sets K) (a b r : K)
      → IsSets o s
      → find dec a s ≡ some (r, t)
      → find dec b t ≡ some (r, u)
      → Same s a b
  Same-of_find s t u a b r v ea eb =
      let (ra, t', rb, u', e, f, iff) = find-Same s a b v in
      let (same_a, same_t) = found_pair ra r t' t (sym e ∙ ea) in
      let (same_b, _) =
        found_pair rb r u' u (sym f ∙ subst (λ z. find dec b z ≡ some (r, u)) (sym same_t) eb) in
      iff.0 (same_a ∙ sym same_b)

  pub Same-equivalence : (s : Sets K) → IsSets o s → (x y : K) → Closure (Same s) x y → Same s x y
  Same-equivalence s v x y (base h) = h
  Same-equivalence s v x y same = let (r, h) = Root-exists o dec s x v in (r, h, h)
  Same-equivalence s v x y (flip h) = let (r, p, q) = Same-equivalence s v y x h in (r, q, p)
  Same-equivalence s v x y (chain {b = m} h k) =
      let (r, p, q) = Same-equivalence s v x m h in
      let (r', p', q') = Same-equivalence s v m y k in
      (r, p, subst (λ z. Root s z y) (Root-unique s r' r m p' q) q')

  -- A root is the first key of its class, so that a class that did not change keeps it.
  pub Root-stable :
      (s t : Sets K)
      → IsSets o s
      → IsSets o t
      → (r k : K) → ((x : K) → Same s x k ↔ Same t x k)
      → Root s r k
      → Root t r k
  Root-stable s t v w r k iff root =
      let (q, root') = Root-exists o dec t k w in
      let (x, xr, xk) = (iff r).0 (r, top refl (Root-is_Root s r k root), root) in
      let (y, yq, yk) = (iff q).1 (q, top refl (Root-is_Root t q k root'), root') in
      let later =
        Root-first o t q r w (subst (λ z. Root t z r) (Root-unique t x q k xk root') xr) in
      let before =
        Root-first o s r q v (subst (λ z. Root s z q) (Root-unique s y r k yk root) yq) in
      subst (λ z. Root t z k) (antisym q later before) root'
    where
      antisym : (q : K) → (r ≡ q) ⊎ (o.before q r ≡ true) → (q ≡ r) ⊎ (o.before r q ≡ true) → q ≡ r
      antisym q later before = ground (arith, o.before_irrefl r, o.before_trans r q r)

  -- After the first loop every key is its own class.
  abbrev AllOwn : Sets K → Type 0
  AllOwn s = (k : K) → get_parent s k ≡ k

  add-AllOwn : (v : K) (s : Sets K) → AllOwn s → AllOwn (add dec v s)
  unfolding add
  add-AllOwn v s own k = ground (arith, own k, own v)

  add_all-AllOwn :
      (ks : List K) (s : Sets K)
      → IsSets o s
      → AllOwn s
      → IsSets o (add_all dec ks s) × AllOwn (add_all dec ks s)
  unfolding add_all
  add_all-AllOwn [] s v own = (v, own)
  add_all-AllOwn (k ∷ ks) s v own =
      add_all-AllOwn ks (add dec k s) (add-IsSets o dec s k v) (add-AllOwn k s own)

  Same-of_AllOwn : (s : Sets K) → AllOwn s → (x y : K) → Same s x y → x ≡ y
  Same-of_AllOwn s own x y (r, p, q) =
      Root-of_Root s r x (own x) p ∙ sym (Root-of_Root s r y (own y) q)

  module _ (g : Graph K) where
    -- The pairs that the second loop unites.
    parent_edges : List K → List (K × K)
    parent_edges [] = []
    parent_edges (k ∷ ks) = elim (g.parent k) [
      | none ↦ parent_edges ks
      | some p ↦ (k, p) ∷ parent_edges ks
    ]

    union_parents-union_all :
        (ks : List K) (s : Sets K)
        → union_parents dec o g ks s ≡ union_all dec o (parent_edges ks) s
    unfolding union_parents union_parent union_all parent_edges
    union_parents-union_all [] s = refl
    union_parents-union_all (k ∷ ks) s = elim (Option-cases (g.parent k)) [
      | inl root ↦
          rw (root, union_parents, union_parent, parent_edges) (union_parents-union_all ks s)
      | inr (p, hangs) ↦ elim (Option-cases (union dec o k p s)) [
        | inl stuck ↦ rw (hangs, union_parents, union_parent, parent_edges, stuck) refl
        | inr (t, united) ↦
            rw (hangs, union_parents, union_parent, parent_edges, united)
              (union_parents-union_all ks t)
      ]
    ]

    parent_edges-In :
        (ks : List K) (x y : K) → In (x, y) (parent_edges ks) ↔ (In x ks × (g.parent x ≡ some y))
    unfolding parent_edges
    parent_edges-In [] x y = (λ i. absurd i, λ h. absurd h.0)
    parent_edges-In (k ∷ ks) x y = elim (Option-cases (g.parent k)) [
      | inl root ↦ rw (root, parent_edges) (ground (arith, root, parent_edges-In ks x y))
      | inr (p, hangs) ↦
          let rest = parent_edges-In ks x y in
          rw (hangs, parent_edges)
            (
              λ i. elim i [
                | inl here ↦
                    let ex : x ≡ k = ap (λ (z : K × K). z.0) here in
                    let ey : y ≡ p = ap (λ (z : K × K). z.1) here in (inl ex, ground (arith, hangs))
                | inr later ↦ (inr (rest.0 later).0, (rest.0 later).1)
              ],
              λ h. elim h.0 [
                | inl here ↦
                    let e = h.1 in
                    let ey : y ≡ p = ground (arith, hangs) in
                    inl (ap (λ (z : K). (z, y)) here ∙ ap (λ (z : K). (k, z)) ey)
                | inr later ↦ inr (rest.1 (later, h.1))
              ],
            )
    ]

    -- The two loops over the nodes end, with the classes of the parent edges.
    pub components_lem :
        ((p c : K) → g.parent c ≡ some p → In c g.nodes)
        → (s : Sets K) × (components dec o g ≡ some s)
          × IsSets o s
          × ((x y : K) → Same s x y ↔ Closure (λ a b. g.parent a ≡ some b) x y)
    unfolding components
    components_lem owned =
        let start = add_all dec g.nodes empty_sets in
        let (v, own) = add_all-AllOwn g.nodes empty_sets (empty_sets-IsSets o dec) (λ k. refl) in
        let (s, e, w, iff) = union_all-Same o dec (parent_edges g.nodes) start v in
        let (to, from) : ((x y : K)
              → Closure (Extended o dec start (parent_edges g.nodes)) x y
              → Closure (λ a b. g.parent a ≡ some b) x y)
            × ((x y : K)
                → Closure (λ a b. g.parent a ≡ some b) x y
                → Closure (Extended o dec start (parent_edges g.nodes)) x y) =
          (
            λ x y. Closure-bind _ _ x y (λ a b h. elim h [
              | inl one ↦
                  subst (Closure (λ c d. g.parent c ≡ some d) a) (Same-of_AllOwn start own a b one)
                    same
              | inr pair ↦ base ((parent_edges-In g.nodes a b).0 pair).1
            ]),
            λ x y.
                Closure-bind _ _ x y
                  (λ a b h. base (inr ((parent_edges-In g.nodes a b).1 (owned b a h, h)))),
          ) in
        (
          s,
          union_parents-union_all g.nodes start ∙ e,
          w,
          λ x y. (λ h. to x y ((iff x y).0 h), λ h. (iff x y).1 (from x y h)),
        )
