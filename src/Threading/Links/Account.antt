-- ===== src/Threading/Links/Account.antt =====
-- The account graph of `threadAccount` after the linking loop.
use supamail.Common.{
  ◌≡◌, refl, ◌≢◌, ◌⊎◌, inl, inr, Bool, Option, none, some, List, [], ◌∷◌, map, All, All-map,
}
use supamail.Common.Keys.{In}
use supamail.Threading.Graph.Forest.{Above, parent_of, further, IsForest}
use supamail.Threading.Links.Whole.{IsWhole}
use supamail.Threading.Links.Forest.{Present, add_deliveries-Kept}
use supamail.Threading.Links.References.{last_key, link_delivery-Visited}
use supamail.Threading.Links.{
  NodeKey, NodeKey-discrete, Warning, Delivery, node_key, AccountGraph, empty_graph, add_deliveries,
  mark_ambiguous, link_deliveries, sort_by, link_account,
}
use supamail.Threading.Links.Order.{
  DistinctBy, All-sort_by, DistinctBy-sort_by, All_of_map, DistinctBy-map,
}
use supamail.Threading.Links.Nodes.{node_key-Distinct, node_key-mark, all_In}

module _ (deliveries : List Delivery) where
  -- The node of a delivery hangs under the node of its last reference, or the delivery carries the
  -- warning; a delivery without references has no condition.
  abbrev pub SettledUnder : Option NodeKey → AccountGraph → Delivery → Delivery → Type 0
  SettledUnder none h d out = Unit
  SettledUnder (some k) h d out =
      (h.parent (node_key deliveries d) ≡ some k) ⊎ In Warning.reference_cycle_ignored out.warnings

  abbrev pub Settled : AccountGraph → Delivery → Delivery → Type 0
  Settled h d out = SettledUnder (last_key deliveries d.key none d.reference_ids) h d out

  Settled-intro :
      (last : Option NodeKey) (h : AccountGraph) (d out : Delivery)
      → ((k : NodeKey)
          → last ≡ some k
          → (h.parent (node_key deliveries d) ≡ some k)
            ⊎ In Warning.reference_cycle_ignored out.warnings)
      → SettledUnder last h d out
  Settled-intro none h d out f = tt
  Settled-intro (some k) h d out f = f k refl

  abbrev pub AllSettled : AccountGraph → List Delivery → List Delivery → Type 0
  AllSettled h [] [] = Unit
  AllSettled h (d ∷ ds) (out ∷ outs) = Settled h d out × AllSettled h ds outs
  AllSettled h [] (out ∷ outs) = ⊥
  AllSettled h (d ∷ ds) [] = ⊥

  -- What the linking loop leaves.
  record Linked (ds : List Delivery) (g : AccountGraph) (outs : List Delivery) (h : AccountGraph)
      : Type 0 where
    pub whole : IsWhole NodeKey-discrete h
    pub grows : (x : NodeKey) → In x g.nodes → In x h.nodes
    pub stays :
        (x p : NodeKey)
        → All (λ d. x ≢ node_key deliveries d) ds
        → g.parent x ≡ some p
        → h.parent x ≡ some p
    pub settled : AllSettled h ds outs

  link_deliveries-Linked :
      (boundaries : Bool) (ds : List Delivery) (g : AccountGraph)
      → IsWhole NodeKey-discrete g
      → Present deliveries g deliveries
      → Present deliveries g ds
      → DistinctBy (node_key deliveries) ds
      → (outs : List Delivery) × (h : AccountGraph) × (link_deliveries deliveries boundaries ds g
          ≡ some (outs, h))
        × Linked ds g outs h
  unfolding link_deliveries
  link_deliveries-Linked boundaries [] g w all present n =
      ([], g, refl, record { whole = w; grows = λ x i. i; stays = λ x p a e. e; settled = tt })
  link_deliveries-Linked boundaries (d ∷ ds) g w all (here, present) (n, ns) =
      let (s, e, v) = link_delivery-Visited deliveries boundaries d g w all here in
      let (outs, h, f, l) =
        link_deliveries-Linked boundaries ds s.graph v.whole
          (All-map _ _ deliveries (λ x i. v.grows (node_key deliveries x) i) all)
          (All-map _ _ ds (λ x i. v.grows (node_key deliveries x) i) present) ns in
      (
        s.current ∷ outs,
        h,
        rw (e, f, link_deliveries) refl,
        record {
          whole = l.whole;
          grows = λ x i. l.grows x (v.grows x i);
          stays = λ x p a k. l.stays x p a.1 (v.stays x p a.0 k);
          settled = (
            Settled-intro (last_key deliveries d.key none d.reference_ids) h d s.current (λ k last.
                elim (v.settled k last) [
                  | inl hangs ↦ inl (l.stays (node_key deliveries d) k n hangs)
                  | inr warned ↦ inr warned
                ]),
            l.settled,
          );
        },
      )

empty_graph-IsWhole : IsWhole NodeKey-discrete empty_graph
empty_graph-IsWhole = record {
  forest = record {
    linked = λ p c. (λ e. absurd cc, λ i. absurd i);
    known = λ p c e. absurd cc;
    acyclic = λ k a. unlinked k k a;
  };
  owned = λ p c e. absurd cc;
}
  where
    unlinked : (a b : NodeKey) → Above empty_graph a b → ⊥
    unlinked a b (parent_of e) = absurd cc
    unlinked a b (further e r) = absurd cc

-- The deliveries in the order in which the linking loop visits them.
abbrev pub visited : (Delivery → Delivery → Bool) → List Delivery → List Delivery
visited precedes deliveries = sort_by precedes (map (mark_ambiguous deliveries) deliveries)

pub link_account-IsWhole :
    (precedes : Delivery → Delivery → Bool) (boundaries : Bool) (deliveries : List Delivery)
    → DistinctBy (λ d. d.key) deliveries
    → (outs : List Delivery) × (h : AccountGraph) × (link_account precedes boundaries deliveries
        ≡ some (outs, h))
      × IsWhole NodeKey-discrete h
      × Present deliveries h deliveries
      × AllSettled deliveries h (visited precedes deliveries) outs
unfolding link_account
link_account-IsWhole precedes boundaries deliveries distinct =
    let (kept, present) =
      add_deliveries-Kept deliveries deliveries empty_graph empty_graph-IsWhole in
    let nk = node_key deliveries in
    let start = add_deliveries deliveries deliveries empty_graph in
    let marked = map (mark_ambiguous deliveries) deliveries in
    let same = node_key-mark deliveries in
    let (outs, h, e, l) =
      link_deliveries-Linked deliveries boundaries (sort_by precedes marked) start kept.whole
        present
        (All-sort_by (λ d. In (nk d) start.nodes) precedes marked
          (All_of_map nk precedes (λ k. In k start.nodes) (mark_ambiguous deliveries) same
            deliveries present))
        (DistinctBy-sort_by nk precedes marked (
          DistinctBy-map nk precedes (mark_ambiguous deliveries) same deliveries
            (node_key-Distinct deliveries deliveries (all_In deliveries) distinct))) in
    (outs, h, e, l.whole, All-map _ _ deliveries (λ d i. l.grows (nk d) i) present, l.settled)

-- For deliveries with different keys, the graph and the linking loop of an account return: the graph is a forest,
-- every delivery has its node in it, and after the loop the node of each delivery that names a
-- reference hangs under the node of its last one, whatever the later rounds attach, or the delivery
-- carries the warning `reference_cycle_ignored`.
pub link_account_lem :
    (precedes : Delivery → Delivery → Bool) (boundaries : Bool) (deliveries : List Delivery)
    → DistinctBy (λ d. d.key) deliveries
    → (outs : List Delivery) × (h : AccountGraph) × (link_account precedes boundaries deliveries
        ≡ some (outs, h))
      × IsForest h
      × Present deliveries h deliveries
      × AllSettled deliveries h (visited precedes deliveries) outs
link_account_lem precedes boundaries deliveries distinct =
    let (outs, h, e, whole, present, settled) =
      link_account-IsWhole precedes boundaries deliveries distinct in
    (outs, h, e, whole.forest, present, settled)
