-- ===== src/Threading/Links/Whole.antt =====
-- A forest in which every node that has a parent is in the map of nodes: `addNode` and `attach` keep it.
use supamail.Common.{
  ◌≡◌, refl, sym, ◌≢◌, ◌↔◌, inl, inr, Bool, true, false, some, [], ◌∷◌, arith, ap, ◌∙◌, Bool-cases,
  subst,
}
use supamail.Common.Keys.{In, In-append, contains, contains_iff}
use supamail.Threading.Graph.{Graph, add_node, attach}
use supamail.Threading.Graph.Forest.{Above, parent_of, further, IsForest}
use supamail.Threading.Graph.Attach.{attach-IsForest, attach_iff}

module _ {K : Type 0} (dec : Discrete K) where
  pub record IsWhole (g : Graph K) : Type 0 where
    pub forest : IsForest g
    pub owned : (p c : K) → g.parent c ≡ some p → In c g.nodes

  module _ (g : Graph K) (k : K) (fresh : contains dec g.nodes k ≡ false) (w : IsWhole g) where
    not_in : In k g.nodes → ⊥
    not_in h = ground (arith, contains_iff dec g.nodes k)

    abbrev grown : Graph K
    grown = add_node dec k g

    grown-parent : (x p : K) → grown.parent x ≡ some p → (g.parent x ≡ some p) × (x ≢ k)
    unfolding add_node
    grown-parent x p e = ground (arith, fresh)

    grown-nodes : (x : K) → In x g.nodes → In x grown.nodes
    unfolding add_node
    grown-nodes x h = rw fresh ((In-append x g.nodes (k ∷ [])).1 (inl h))

    Above-of_grown : (a b : K) → Above grown a b → Above g a b
    Above-of_grown a b (parent_of e) = parent_of (grown-parent b a e).0
    Above-of_grown a b (further {b = d} e r) = further (grown-parent b d e).0 (Above-of_grown a d r)

    grown-linked : (p x : K) → (grown.parent x ≡ some p) ↔ In x (grown.children p)
    unfolding add_node
    grown-linked p x = ground (
      arith,
      fresh,
      w.forest.linked p x,
      w.forest.linked p k,
      w.owned p k,
      not_in,
      w.forest.known p x,
      w.forest.known k x,
    )

    grown-IsWhole : IsWhole grown
    grown-IsWhole = record {
      forest = record {
        linked = grown-linked;
        known = λ p c e. grown-nodes p (w.forest.known p c (grown-parent c p e).0);
        acyclic = λ x a. w.forest.acyclic x (Above-of_grown x x a);
      };
      owned = λ p c e. grown-nodes c (w.owned p c (grown-parent c p e).0);
    }

  -- `addNode`, on both branches.
  pub add_node-IsWhole : (g : Graph K) (k : K) → IsWhole g → IsWhole (add_node dec k g)
  unfolding add_node
  add_node-IsWhole g k w = elim (Bool-cases (contains dec g.nodes k)) [
    | inl present ↦ rw present w
    | inr fresh ↦ grown-IsWhole g k fresh w
  ]

  pub add_node-In : (g : Graph K) (k : K) → In k (add_node dec k g).nodes
  unfolding add_node
  add_node-In g k = elim (Bool-cases (contains dec g.nodes k)) [
    | inl present ↦ rw present ((contains_iff dec g.nodes k).0 present)
    | inr fresh ↦ rw fresh ((In-append k g.nodes (k ∷ [])).1 (inr (inl refl)))
  ]

  pub add_node-keeps : (g : Graph K) (k x : K) → In x g.nodes → In x (add_node dec k g).nodes
  unfolding add_node
  add_node-keeps g k x h = elim (Bool-cases (contains dec g.nodes k)) [
    | inl present ↦ rw present h
    | inr fresh ↦ rw fresh ((In-append x g.nodes (k ∷ [])).1 (inl h))
  ]

  -- `attach` between two nodes, on every branch.
  pub attach-IsWhole :
      (g : Graph K) (p c : K) (replace : Bool)
      → IsWhole g
      → In p g.nodes
      → In c g.nodes
      → (b : Bool) × (h : Graph K) × (attach dec p c replace g ≡ some (b, h))
        × IsWhole h
        × (h.nodes ≡ g.nodes)
  attach-IsWhole g p c replace w hp hc =
      let (b, h, e, forest, same) = attach-IsForest dec g p c replace w.forest hp in
      (
        b,
        h,
        e,
        record { forest = forest; owned = λ q x k. subst (In x) (sym same) (owned b h e x q k) },
        same,
      )
    where
      owned :
          (b : Bool) (h : Graph K)
          → attach dec p c replace g ≡ some (b, h)
          → (x q : K) → h.parent x ≡ some q
          → In x g.nodes
      owned true h e x q k =
          let moved = (attach_iff dec g p c replace true h w.forest hp e).1 refl in
          elim (dec x c) [
            | yes same ↦ subst (λ z. In z g.nodes) (sym same) hc
            | no ne ↦ w.owned q x (sym (moved.1 x ne) ∙ k)
          ]
      owned false h e x q k =
          let same = (attach_iff dec g p c replace false h w.forest hp e).2 refl in
          w.owned q x (ap (λ (z : Graph K). z.parent x) (sym same) ∙ k)

  pub add_node-parent :
      (g : Graph K) (k : K)
      → IsWhole g
      → (x p : K) → g.parent x ≡ some p
      → (add_node dec k g).parent x ≡ some p
  unfolding add_node
  add_node-parent g k w x p e = elim (Bool-cases (contains dec g.nodes k)) [
    | inl present ↦ rw present e
    | inr fresh ↦ ground (arith, fresh, w.owned p x e, contains_iff dec g.nodes k)
  ]
