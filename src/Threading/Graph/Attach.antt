-- ===== src/Threading/Graph/Attach.antt =====
-- `attach` keeps the forest, on every branch, and refuses exactly what would break it.
use supamail.Common.{
  ◌≡◌, refl, sym, ◌≢◌, ◌↔◌, ◌⊎◌, inl, inr, Bool, true, false, none, some, arith, Bool-cases, subst,
  ◌∙◌, Option-cases, if◌then◌else◌,
}
use supamail.Common.Keys.{In, In-set_add, In-set_delete}
use supamail.Threading.Graph.{Graph, detach, link, attach}
use supamail.Threading.Graph.Forest.{Above, parent_of, further, IsForest, Above-trans}
use supamail.Threading.Graph.Walk.{Closes, would_create_cycle_lem}

module _ {K : Type 0} (dec : Discrete K) (g : Graph K) (c : K) where
  parent_of_detach :
      (x p : K) → (detach dec c g).parent x ≡ some p → (g.parent x ≡ some p) × (x ≢ c)
  unfolding detach
  parent_of_detach x p e = ground arith

  detach-parent_self : (detach dec c g).parent c ≡ none
  unfolding detach
  detach-parent_self = ground arith

  detach-parent_ne : (x : K) → x ≢ c → (detach dec c g).parent x ≡ g.parent x
  unfolding detach
  detach-parent_ne x ne = ground arith

  detach-nodes : (detach dec c g).nodes ≡ g.nodes
  unfolding detach
  detach-nodes = ground arith

  Above-of_detach : (a b : K) → Above (detach dec c g) a b → Above g a b
  Above-of_detach a b (parent_of e) = parent_of (parent_of_detach b a e).0
  Above-of_detach a b (further {b = d} e r) =
      further (parent_of_detach b d e).0 (Above-of_detach a d r)

  detach-IsForest : IsForest g → IsForest (detach dec c g)
  unfolding detach
  detach-IsForest f = record {
    linked =
        λ p x. ground (arith, f.linked p x, In-set_delete dec c x (g.children p), f.linked p c);
    known = λ p x e. rw detach-nodes (f.known p x (parent_of_detach x p e).0);
    acyclic = λ k a. f.acyclic k (Above-of_detach k k a);
  }

module _ {K : Type 0} (dec : Discrete K) (g : Graph K) (p c : K) where
  parent_of_link :
      (x a : K) → (link dec p c g).parent x ≡ some a → ((x ≡ c) × (a ≡ p)) ⊎ (g.parent x ≡ some a)
  unfolding link
  parent_of_link x a e = ground arith

  -- An ancestry after `link` was there before, or goes through the new edge.
  Above-of_link :
      p ≢ c
      → ¬ Above g c p
      → (a b : K) → Above (link dec p c g) a b
      → Above g a b ⊎ (((b ≡ c) ⊎ Above g c b) × ((a ≡ p) ⊎ Above g a p))
  Above-of_link ne clear a b (parent_of e) = elim (parent_of_link b a e) [
    | inl (low, high) ↦ inr (inl low, inl high)
    | inr old ↦ inl (parent_of old)
  ]
  Above-of_link ne clear a b (further {b = d} e r) =
      let ih = Above-of_link ne clear a d r in
      elim (parent_of_link b d e) [
        | inl (low, same) ↦ inr (
          inl low,
          elim ih [
            | inl above ↦ inr (subst (Above g a) same above)
            | inr (inl eq, high) ↦ absurd (ne (sym same ∙ eq))
            | inr (inr above, high) ↦ absurd (clear (subst (Above g c) same above))
          ],
        )
        | inr old ↦ elim ih [
          | inl above ↦ inl (further old above)
          | inr (inl eq, high) ↦
              inr (inr (parent_of (subst (λ k. g.parent b ≡ some k) eq old)), high)
          | inr (inr above, high) ↦ inr (inr (further old above), high)
        ]
      ]

  link-IsForest :
      IsForest g
      → In p g.nodes
      → g.parent c ≡ none
      → p ≢ c
      → ¬ Above g c p
      → IsForest (link dec p c g)
  unfolding link
  link-IsForest f k free ne clear = record {
    linked = λ q x. ground (arith, f.linked q x, In-set_add dec c x (g.children p), f.linked q c);
    known = λ q x e. ground (arith, f.known q x);
    acyclic = λ x a. elim (Above-of_link ne clear x x a) [
      | inl above ↦ f.acyclic x above
      | inr (inl low, inl high) ↦ ne (sym high ∙ low)
      | inr (inl low, inr high) ↦ clear (subst (λ k. Above g k p) low high)
      | inr (inr low, inl high) ↦ clear (subst (Above g c) high low)
      | inr (inr low, inr high) ↦ clear (Above-trans g c x p high low)
    ];
  }

module _ {K : Type 0} (dec : Discrete K) (g : Graph K) (p c : K) where
  abbrev Room : Bool → Type 0
  Room replace = (g.parent c ≡ none) ⊎ (replace ≡ true)

  -- The graph that the new edge is put into.
  abbrev base : Bool → Graph K
  base replace = if replace then detach dec c g else g

  abbrev Refused : Bool → Type 0
  Refused replace =
      (attach dec p c replace g ≡ some (false, g))
      × ((p ≡ c) ⊎ (Above g c p ⊎ ((g.parent c ≢ none) × (replace ≡ false))))

  abbrev Accepted : Bool → Type 0
  Accepted replace =
      (attach dec p c replace g ≡ some (true, link dec p c (base replace)))
      × (p ≢ c)
      × (¬ Above g c p)
      × Room replace

  Above-of_Closes : p ≢ c → Closes dec g p c → Above g c p
  Above-of_Closes ne (inl above) = above
  Above-of_Closes ne (inr (same, _)) = absurd (ne (sym same))

  attach_cases : (replace : Bool) → IsForest g → In p g.nodes → Refused replace ⊎ Accepted replace
  unfolding attach
  attach_cases replace f k = elim (dec p c) [
    | yes same ↦ inl (ground arith, inl same)
    | no ne ↦
        let (b, e, spec) = would_create_cycle_lem dec g p c f k in
        elim (Bool-cases b) [
          | inl cyclic ↦ inl (ground arith, inr (inl (Above-of_Closes ne (spec.0 cyclic))))
          | inr clear ↦ elim (Option-cases (g.parent c)) [
            | inl free ↦
                inr (ground arith, ne, λ above. ground (arith, spec.1 (inl above)), inl free)
            | inr (q, owned) ↦ elim (Bool-cases replace) [
              | inl force ↦
                  inr (ground arith, ne, λ above. ground (arith, spec.1 (inl above)), inr force)
              | inr keep ↦ inl (ground arith, inr (inr (λ h. ground arith, keep)))
            ]
          ]
        ]
  ]

  base-IsForest : (replace : Bool) → IsForest g → IsForest (base replace)
  base-IsForest true f = detach-IsForest dec g c f
  base-IsForest false f = f

  base-parent : (replace : Bool) → Room replace → (base replace).parent c ≡ none
  base-parent true room = detach-parent_self dec g c
  base-parent false (inl free) = free
  base-parent false (inr force) = cc

  base-nodes : (replace : Bool) → (base replace).nodes ≡ g.nodes
  base-nodes true = detach-nodes dec g c
  base-nodes false = refl

  Above-of_base : (replace : Bool) (a b : K) → Above (base replace) a b → Above g a b
  Above-of_base true a b above = Above-of_detach dec g c a b above
  Above-of_base false a b above = above

  -- In a forest, for a parent that is a node, `attach` ends on every branch, and leaves a forest
  -- with the same nodes: parent pointers and child sets agree, and no node is its own ancestor.
  pub attach-IsForest :
      (replace : Bool)
      → IsForest g
      → In p g.nodes
      → (b : Bool) × (h : Graph K) × (attach dec p c replace g ≡ some (b, h))
        × IsForest h
        × (h.nodes ≡ g.nodes)
  attach-IsForest replace f k = elim (attach_cases replace f k) [
    | inl r ↦ (false, g, r.0, f, refl)
    | inr a ↦
        let (e, ne, clear, room) = a in
        (
          true,
          link dec p c (base replace),
          e,
          link-IsForest dec (base replace) p c (base-IsForest replace f)
              (subst (In p) (sym (base-nodes replace)) k) (base-parent replace room) ne
              (λ above. clear (Above-of_base replace c p above)),
          unfold link in base-nodes replace,
        )
  ]

  abbrev Moved : Graph K → Type 0
  Moved h = (h.parent c ≡ some p) × ((x : K) → x ≢ c → h.parent x ≡ g.parent x)

  base-parent_ne : (replace : Bool) (x : K) → x ≢ c → (base replace).parent x ≡ g.parent x
  base-parent_ne true x ne = detach-parent_ne dec g c x ne
  base-parent_ne false x ne = refl

  link-Moved : (replace : Bool) → Moved (link dec p c (base replace))
  unfolding link
  link-Moved replace = (ground arith, λ x ne. ground (arith, base-parent_ne replace x ne))

  true≢false : true ≢ false
  true≢false e = cc

  -- In a forest, for a parent that is a node, `attach` returns true exactly if the two nodes
  -- differ, the child is no ancestor of the parent, and the child has no parent or may be given a
  -- new one. Then the child has this parent and every other node keeps its own; else nothing
  -- changes.
  pub attach_iff :
      (replace b : Bool) (h : Graph K)
      → IsForest g
      → In p g.nodes
      → attach dec p c replace g ≡ some (b, h)
      → ((b ≡ true) ↔ ((p ≢ c) × (¬ Above g c p) × ((g.parent c ≡ none) ⊎ (replace ≡ true))))
        × (b ≡ true → (h.parent c ≡ some p) × ((x : K) → x ≢ c → h.parent x ≡ g.parent x))
        × (b ≡ false → h ≡ g)
  attach_iff replace b h f k e = elim (attach_cases replace f k) [
    | inl (r, why) ↦
        let no_edge : b ≡ false = ground arith in
        let same : h ≡ g = ground arith in
        (
          (
            λ yes_edge. absurd (true≢false (sym yes_edge ∙ no_edge)),
            λ (ne, clear, room). elim why [
              | inl eq ↦ absurd (ne eq)
              | inr (inl above) ↦ absurd (clear above)
              | inr (inr (owned, keep)) ↦ elim room [
                | inl free ↦ absurd (owned free)
                | inr force ↦ absurd (true≢false (sym force ∙ keep))
              ]
            ],
          ),
          λ yes_edge. absurd (true≢false (sym yes_edge ∙ no_edge)),
          λ _. same,
        )
    | inr (r, ne, clear, room) ↦
        let edge : b ≡ true = ground arith in
        let new : link dec p c (base replace) ≡ h = ground arith in
        (
          (λ _. (ne, clear, room), λ _. edge),
          λ _. subst Moved new (link-Moved replace),
          λ no_edge. absurd (true≢false (sym edge ∙ no_edge)),
        )
  ]
