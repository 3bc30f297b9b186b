-- ===== src/Threading/Links/Forest.antt =====
-- The linking loop ends, and keeps the forest.
use supamail.Common.{
  ◌≡◌, refl, sym, ap, ◌∙◌, ◌≢◌, ◌⊎◌, inl, inr, Bool, true, false, not, ◌&&◌, Option, none, some,
  List, [], ◌∷◌, ℕ, All, All-map, arith, Bool-cases, subst,
}
use supamail.Common.Keys.{In, In-set_add}
use supamail.Threading.Graph.{add_node, attach, has_parent}
use supamail.Threading.Graph.Attach.{attach_iff}
use supamail.Threading.Links.Whole.{
  IsWhole, add_node-IsWhole, add_node-In, add_node-keeps, add_node-parent, attach-IsWhole,
}
use supamail.Threading.Links.{
  NodeKey, NodeKey-discrete, Warning, Warning-discrete, Delivery, warn, owns, token_owners,
  node_key, AccountGraph, add_deliveries, Linking, node_of_owners, reference_node, crosses_forward,
  note, attach_or_warn, link_to_prior, link_references,
}

-- The graph grew: its nodes are still there, and a node that had a parent has the same one.
pub record Kept (g h : AccountGraph) : Type 0 where
  pub whole : IsWhole NodeKey-discrete h
  pub grows : (x : NodeKey) → In x g.nodes → In x h.nodes
  pub stays : (x p : NodeKey) → g.parent x ≡ some p → h.parent x ≡ some p

Kept-refl : (g : AccountGraph) → IsWhole NodeKey-discrete g → Kept g g
Kept-refl g w = record { whole = w; grows = λ x h. h; stays = λ x p e. e }

Kept-trans : (f g h : AccountGraph) → Kept f g → Kept g h → Kept f h
Kept-trans f g h a b = record {
  whole = b.whole;
  grows = λ x i. b.grows x (a.grows x i);
  stays = λ x p e. b.stays x p (a.stays x p e);
}

add_node-Kept :
    (g : AccountGraph) (k : NodeKey)
    → IsWhole NodeKey-discrete g
    → Kept g (add_node NodeKey-discrete k g)
add_node-Kept g k w = record {
  whole = add_node-IsWhole NodeKey-discrete g k w;
  grows = add_node-keeps NodeKey-discrete g k;
  stays = λ x p e. add_node-parent NodeKey-discrete g k w x p e;
}

none≢some : {p : NodeKey} → ◌≡◌ {A = Option NodeKey} none (some p) → ⊥
none≢some e = cc

-- The node before, if there is one, is in the graph.
abbrev pub InSome : Option NodeKey → AccountGraph → Type 0
InSome none g = Unit
InSome (some k) g = In k g.nodes

InSome-Kept : (k : Option NodeKey) (g h : AccountGraph) → Kept g h → InSome k g → InSome k h
InSome-Kept none g h kept i = tt
InSome-Kept (some k) g h kept i = kept.grows k i

module _ (deliveries : List Delivery) where
  -- Every delivery has its node.
  abbrev pub Present : AccountGraph → List Delivery → Type 0
  Present g ds = All (λ d. In (node_key deliveries d) g.nodes) ds

  Present-Kept : (g h : AccountGraph) (ds : List Delivery) → Kept g h → Present g ds → Present h ds
  Present-Kept g h ds k p = All-map _ _ ds (λ d i. k.grows (node_key deliveries d) i) p

  pub add_deliveries-Kept :
      (ds : List Delivery) (g : AccountGraph)
      → IsWhole NodeKey-discrete g
      → Kept g (add_deliveries deliveries ds g) × Present (add_deliveries deliveries ds g) ds
  unfolding add_deliveries
  add_deliveries-Kept [] g w = (Kept-refl g w, tt)
  add_deliveries-Kept (d ∷ ds) g w =
      let k = node_key deliveries d in
      let h = add_node NodeKey-discrete k g in
      let one = add_node-Kept g k w in
      let (rest, present) = add_deliveries-Kept ds h one.whole in
      (
        Kept-trans g h (add_deliveries deliveries ds h) one rest,
        (rest.grows k (add_node-In NodeKey-discrete g k), present),
      )

  owners-All :
      (P : Delivery → Type 0) (token : List ℕ) (ds : List Delivery)
      → All P ds
      → All P (token_owners token ds)
  unfolding token_owners
  owners-All P token [] h = tt
  owners-All P token (d ∷ ds) (p, h) = elim (Bool-cases (owns token d)) [
    | inl mine ↦ rw mine (p, owners-All P token ds h)
    | inr other ↦ rw other (owners-All P token ds h)
  ]

  -- `referenceNode` gives a node of the graph.
  node_of_owners-In :
      (token : List ℕ) (owners : List Delivery) (s : Linking)
      → IsWhole NodeKey-discrete s.graph
      → Present s.graph owners
      → Kept s.graph (node_of_owners deliveries token owners s).1.graph
        × In
            (node_of_owners deliveries token owners s).0
            (node_of_owners deliveries token owners s).1.graph.nodes
  unfolding node_of_owners
  node_of_owners-In token [] s w h = (
    add_node-Kept s.graph (NodeKey.missing token) w,
    add_node-In NodeKey-discrete s.graph (NodeKey.missing token),
  )
  node_of_owners-In token (owner ∷ []) s w h = (Kept-refl s.graph w, h.0)
  node_of_owners-In token (owner ∷ other ∷ owners) s w h =
      let k = NodeKey.ambiguous token s.current.key in
      (add_node-Kept s.graph k w, add_node-In NodeKey-discrete s.graph k)

  reference_node-In :
      (token : List ℕ) (s : Linking)
      → IsWhole NodeKey-discrete s.graph
      → Present s.graph deliveries
      → Kept s.graph (reference_node deliveries token s).1.graph
        × In (reference_node deliveries token s).0 (reference_node deliveries token s).1.graph.nodes
  unfolding reference_node
  reference_node-In token s w h =
      node_of_owners-In token (token_owners token deliveries) s w
        (owners-All (λ d. In (node_key deliveries d) s.graph.nodes) token deliveries h)

  -- What `attach` with its warning does to the graph and to the current delivery.
  pub record Attached (p c : NodeKey) (s next : Linking) : Type 0 where
    pub whole : IsWhole NodeKey-discrete next.graph
    pub same_nodes : next.graph.nodes ≡ s.graph.nodes
    pub others : (x : NodeKey) → x ≢ c → next.graph.parent x ≡ s.graph.parent x
    pub linked :
        (next.graph.parent c ≡ some p)
        ⊎ ((next.graph ≡ s.graph) × In Warning.reference_cycle_ignored next.current.warnings)

  pub attach_or_warn-Attached :
      (p c : NodeKey) (replace : Bool) (s : Linking)
      → IsWhole NodeKey-discrete s.graph
      → In p s.graph.nodes
      → In c s.graph.nodes
      → (next : Linking) × (attach_or_warn deliveries p c replace s ≡ some next)
        × Attached p c s next
  unfolding attach_or_warn
  attach_or_warn-Attached p c replace s w hp hc =
      let (b, h, e, whole, same) = attach-IsWhole NodeKey-discrete s.graph p c replace w hp hc in
      by_answer b h e whole same
    where
      by_answer :
          (b : Bool) (h : AccountGraph)
          → attach NodeKey-discrete p c replace s.graph ≡ some (b, h)
          → IsWhole NodeKey-discrete h
          → h.nodes ≡ s.graph.nodes
          → (next : Linking) × (attach_or_warn deliveries p c replace s ≡ some next)
            × Attached p c s next
      by_answer true h e whole same =
          let moved =
            (attach_iff NodeKey-discrete s.graph p c replace true h w.forest hp e).1 refl in
          (
            record s { graph = h },
            rw (e, attach_or_warn) refl,
            record { whole = whole; same_nodes = same; others = moved.1; linked = inl moved.0 },
          )
      by_answer false h e whole same =
          let unmoved =
            (attach_iff NodeKey-discrete s.graph p c replace false h w.forest hp e).2 refl in
          (
            record { graph = h; current = warn Warning.reference_cycle_ignored s.current },
            rw (e, attach_or_warn) refl,
            record {
              whole = whole;
              same_nodes = same;
              others = λ x ne. ap (λ (g : AccountGraph). g.parent x) unmoved;
              linked = inr (
                unmoved,
                (In-set_add Warning-discrete Warning.reference_cycle_ignored
                      Warning.reference_cycle_ignored s.current.warnings).1
                    (inl refl),
              );
            },
          )

  Attached-Kept :
      (p c : NodeKey) (s next : Linking)
      → s.graph.parent c ≡ none
      → Attached p c s next
      → Kept s.graph next.graph
  Attached-Kept p c s next free a = record {
    whole = a.whole;
    grows = λ x i. subst (In x) (sym a.same_nodes) i;
    stays = λ x q e. elim (NodeKey-discrete x c) [
      | yes same ↦ absurd (none≢some (sym free ∙ ap s.graph.parent (sym same) ∙ e))
      | no ne ↦ a.others x ne ∙ e
    ];
  }

  has_parent-false :
      (g : AccountGraph) (k : NodeKey) (b : Bool)
      → (not (has_parent NodeKey-discrete g k) && b) ≡ true
      → g.parent k ≡ none
  has_parent-false g k b e = ground arith

  link_to_prior-Kept :
      (boundaries : Bool) (prior : Option NodeKey) (k : NodeKey) (s : Linking)
      → IsWhole NodeKey-discrete s.graph
      → InSome prior s.graph
      → In k s.graph.nodes
      → (next : Linking) × (link_to_prior deliveries boundaries prior k s ≡ some next)
        × Kept s.graph next.graph
  unfolding link_to_prior
  link_to_prior-Kept boundaries none k s w hp hk = (s, refl, Kept-refl s.graph w)
  link_to_prior-Kept boundaries (some prior) k s w hp hk =
      let crosses = crosses_forward deliveries boundaries k in
      let warned = note deliveries Warning.forward_ancestry_not_conversation_edge crosses s in
      elim (Bool-cases (not (has_parent NodeKey-discrete s.graph k) && not crosses)) [
        | inl joins ↦
            let (next, e, a) = attach_or_warn-Attached prior k false warned w hp hk in
            (
              next,
              rw joins e,
              Attached-Kept prior k warned next (has_parent-false s.graph k (not crosses) joins) a,
            )
        | inr apart ↦ (warned, rw apart refl, Kept-refl s.graph w)
      ]

  -- The node that the loop over the references ends with.
  pub link_references-Kept :
      (boundaries : Bool) (prior : Option NodeKey) (tokens : List (List ℕ)) (s : Linking)
      → IsWhole NodeKey-discrete s.graph
      → InSome prior s.graph
      → Present s.graph deliveries
      → (last : Option NodeKey) × (next : Linking) × (link_references deliveries boundaries prior
            tokens s
          ≡ some (last, next))
        × Kept s.graph next.graph
        × InSome last next.graph
  unfolding link_references
  link_references-Kept boundaries prior [] s w hp present =
      (prior, s, refl, Kept-refl s.graph w, hp)
  link_references-Kept boundaries prior (token ∷ tokens) s w hp present =
      let (kept, inside) = reference_node-In token s w present in
      let k = (reference_node deliveries token s).0 in
      let found = (reference_node deliveries token s).1 in
      let (next, e, kept') =
        link_to_prior-Kept boundaries prior k found kept.whole
          (InSome-Kept prior s.graph found.graph kept hp) inside in
      let far = Kept-trans s.graph found.graph next.graph kept kept' in
      let (last, final, f, kept'', end) =
        link_references-Kept boundaries (some k) tokens next kept'.whole (kept'.grows k inside)
          (Present-Kept s.graph next.graph deliveries far present) in
      (
        last,
        final,
        rw (e, link_references) f,
        Kept-trans s.graph next.graph final.graph far kept'',
        end,
      )
