-- ===== src/Threading/Links/References.antt =====
-- Which node the last reference of a delivery stands for, and the round that hangs the delivery under it.
use supamail.Common.{
  ◌≡◌, refl, sym, ap, ◌∙◌, ◌≢◌, ◌⊎◌, inl, inr, Bool, true, false, not, ◌&&◌, Option, none, some,
  List, [], ◌∷◌, ℕ, Bool-cases, subst, Option-cases,
}
use supamail.Common.Keys.{In}
use supamail.Threading.Graph.{attach, has_parent}
use supamail.Threading.Links.Whole.{IsWhole}
use supamail.Threading.Links.Forest.{
  Kept, InSome, Present, attach_or_warn-Attached, link_references-Kept,
}
use supamail.Threading.Links.{
  NodeKey, NodeKey-discrete, Warning, Delivery, token_owners, node_key, AccountGraph, Linking,
  node_of_owners, reference_node, crosses_forward, note, attach_or_warn, link_to_prior,
  link_references, link_delivery,
}

some-injective : {A : Type 0} {x y : A} → ◌≡◌ {A = Option A} (some x) (some y) → x ≡ y
some-injective e = cc

none-some : {k : NodeKey} → ◌≡◌ {A = Option NodeKey} none (some k) → ⊥
none-some e = cc

module _ (deliveries : List Delivery) where
  -- The node of a token, by its owners, for a delivery of this key.
  abbrev key_of_owners : List ℕ → List ℕ → List Delivery → NodeKey
  key_of_owners token key [] = NodeKey.missing token
  key_of_owners token key (owner ∷ []) = node_key deliveries owner
  key_of_owners token key (owner ∷ other ∷ owners) = NodeKey.ambiguous token key

  abbrev pub reference_key : List ℕ → List ℕ → NodeKey
  reference_key key token = key_of_owners token key (token_owners token deliveries)

  -- The node of the last token.
  abbrev pub last_key : List ℕ → Option NodeKey → List (List ℕ) → Option NodeKey
  last_key key prior [] = prior
  last_key key prior (token ∷ tokens) = last_key key (some (reference_key key token)) tokens

  node_of_owners-key :
      (token : List ℕ) (owners : List Delivery) (s : Linking)
      → ((node_of_owners deliveries token owners s).0 ≡ key_of_owners token s.current.key owners)
        × ((node_of_owners deliveries token owners s).1.current.key ≡ s.current.key)
  unfolding node_of_owners
  node_of_owners-key token [] s = (refl, refl)
  node_of_owners-key token (owner ∷ []) s = (refl, refl)
  node_of_owners-key token (owner ∷ other ∷ owners) s = (refl, refl)

  reference_node-key :
      (token : List ℕ) (s : Linking)
      → ((reference_node deliveries token s).0 ≡ reference_key s.current.key token)
        × ((reference_node deliveries token s).1.current.key ≡ s.current.key)
  unfolding reference_node
  reference_node-key token s = node_of_owners-key token (token_owners token deliveries) s

  note-key :
      (w : Warning) (test : Bool) (s : Linking)
      → (note deliveries w test s).current.key ≡ s.current.key
  note-key w true s = refl
  note-key w false s = refl

  attach_or_warn-key :
      (p c : NodeKey) (replace : Bool) (s next : Linking)
      → attach_or_warn deliveries p c replace s ≡ some next
      → next.current.key ≡ s.current.key
  unfolding attach_or_warn
  attach_or_warn-key p c replace s next e =
      elim (Option-cases (attach NodeKey-discrete p c replace s.graph)) [
        | inl stuck ↦ let f = rw (stuck, attach_or_warn) at e in cc
        | inr ((b, g), answered) ↦
            let f = rw (answered, attach_or_warn) at e in
            ap (λ (l : Linking). l.current.key) (sym (some-injective f))
            ∙ note-key Warning.reference_cycle_ignored (not b) (record s { graph = g })
      ]

  link_to_prior-key :
      (boundaries : Bool) (prior : Option NodeKey) (k : NodeKey) (s next : Linking)
      → link_to_prior deliveries boundaries prior k s ≡ some next
      → next.current.key ≡ s.current.key
  unfolding link_to_prior
  link_to_prior-key boundaries none k s next e =
      ap (λ (l : Linking). l.current.key) (sym (some-injective e))
  link_to_prior-key boundaries (some prior) k s next e =
      let crosses = crosses_forward deliveries boundaries k in
      let warned = note deliveries Warning.forward_ancestry_not_conversation_edge crosses s in
      let same = note-key Warning.forward_ancestry_not_conversation_edge crosses s in
      elim (Bool-cases (not (has_parent NodeKey-discrete s.graph k) && not crosses)) [
        | inl joins ↦ attach_or_warn-key prior k false warned next (rw joins at e) ∙ same
        | inr apart ↦
            ap (λ (l : Linking). l.current.key) (sym (some-injective {x = warned} (rw apart at e)))
            ∙ same
      ]

  link_references-last :
      (boundaries : Bool) (prior last : Option NodeKey) (tokens : List (List ℕ)) (s next : Linking)
      → link_references deliveries boundaries prior tokens s ≡ some (last, next)
      → last ≡ last_key s.current.key prior tokens
  unfolding link_references
  link_references-last boundaries prior last [] s next e =
      ap (λ (x : Option NodeKey × Linking). x.0) (sym (some-injective e))
  link_references-last boundaries prior last (token ∷ tokens) s next e =
      let (key, same) = reference_node-key token s in
      let k = (reference_node deliveries token s).0 in
      let found = (reference_node deliveries token s).1 in
      elim (Option-cases (link_to_prior deliveries boundaries prior k found)) [
        | inl stuck ↦ let f = rw (stuck, link_references) at e in cc
        | inr (linked, answered) ↦
            let kept : linked.current.key ≡ s.current.key =
              link_to_prior-key boundaries prior k found linked answered ∙ same in
            link_references-last boundaries (some k) last tokens linked next
              (rw (answered, link_references) at e)
            ∙ ap (λ (x : List ℕ). last_key x (some k) tokens) kept
            ∙ ap (λ (x : NodeKey). last_key s.current.key (some x) tokens) key
      ]

  -- After the round of a delivery: every other node keeps the parent it had, and its own node hangs
  -- under the last reference, or the delivery carries the warning that this was refused.
  pub record Visited (d : Delivery) (g : AccountGraph) (s : Linking) : Type 0 where
    pub whole : IsWhole NodeKey-discrete s.graph
    pub grows : (x : NodeKey) → In x g.nodes → In x s.graph.nodes
    pub stays :
        (x p : NodeKey)
        → x ≢ node_key deliveries d
        → g.parent x ≡ some p
        → s.graph.parent x ≡ some p
    pub settled :
        (k : NodeKey)
        → last_key d.key none d.reference_ids ≡ some k
        → (s.graph.parent (node_key deliveries d) ≡ some k)
          ⊎ In Warning.reference_cycle_ignored s.current.warnings

  pub link_delivery-Visited :
      (boundaries : Bool) (d : Delivery) (g : AccountGraph)
      → IsWhole NodeKey-discrete g
      → Present deliveries g deliveries
      → In (node_key deliveries d) g.nodes
      → (s : Linking) × (link_delivery deliveries boundaries d g ≡ some s) × Visited d g s
  unfolding link_delivery
  link_delivery-Visited boundaries d g w present hd =
      let start : Linking = record { graph = g; current = d } in
      let (last, s, e, kept, end) =
        link_references-Kept deliveries boundaries none d.reference_ids start w tt present in
      finish last s e kept end (link_references-last boundaries none last d.reference_ids start s e)
    where
      finish :
          (last : Option NodeKey) (s : Linking)
          → link_references deliveries boundaries none d.reference_ids
              (record { graph = g; current = d })
            ≡ some (last, s)
          → Kept g s.graph
          → InSome last s.graph
          → last ≡ last_key d.key none d.reference_ids
          → (s' : Linking) × (link_delivery deliveries boundaries d g ≡ some s') × Visited d g s'
      finish none s e kept end same = (
        s,
        rw (e, link_delivery) refl,
        record {
          whole = kept.whole;
          grows = kept.grows;
          stays = λ x p ne h. kept.stays x p h;
          settled = λ k f. absurd (none-some (same ∙ f));
        },
      )
      finish (some prior) s e kept end same =
          let own = node_key deliveries d in
          let (next, f, a) =
            attach_or_warn-Attached deliveries prior own true s kept.whole end
              (kept.grows own hd) in
          (
            next,
            rw (e, link_delivery) f,
            record {
              whole = a.whole;
              grows = λ x i. subst (In x) (sym a.same_nodes) (kept.grows x i);
              stays = λ x p ne h. a.others x ne ∙ kept.stays x p h;
              settled = λ k f. elim a.linked [
                | inl hangs ↦ inl (hangs ∙ same ∙ f)
                | inr (unmoved, warned) ↦ inr warned
              ];
            },
          )
