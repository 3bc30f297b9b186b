-- ===== src/Threading/Graph/Walk.antt =====
-- The cycle test: its loop ends, and in a forest it finds exactly the ancestors.
use supamail.Common.{
  ℕ, zero, suc, ◌+◌, ◌<◌, ◌≡◌, refl, sym, ◌≢◌, ◌↔◌, ◌⊎◌, inl, inr, Bool, true, false, Option, none,
  some, List, [], ◌∷◌, arith, length, Bool-cases,
}
use supamail.Common.Keys.{In, contains, contains_iff, unvisited, unvisited-lt, unvisited-nil}
use supamail.Threading.Graph.{Graph, walk, would_create_cycle}
use supamail.Threading.Graph.Forest.{
  Above, parent_of, further, IsForest, not-Above_of_leaf, Above-trans,
}

module _ {K : Type 0} (dec : Discrete K) (g : Graph K) where
  -- `child` is the cursor's node or one of its ancestors.
  abbrev pub Hits : K → Option K → Type 0
  Hits child none = ⊥
  Hits child (some cursor) = (child ≡ cursor) ⊎ Above g child cursor

  abbrev Knows : Option K → Type 0
  Knows none = Unit
  Knows (some cursor) = In cursor g.nodes

  walk_total :
      ((p c : K) → g.parent c ≡ some p → In p g.nodes)
      → (fuel : ℕ) (child : K) (visited : List K) (cursor : Option K) → Knows cursor
      → unvisited dec visited g.nodes + 1 < fuel
      → (b : Bool) × (walk dec fuel g child visited cursor ≡ some b)
  unfolding walk
  walk_total known zero child visited cursor k h = absurd (omega arith)
  walk_total known (suc fuel) child visited none k h = (false, refl)
  walk_total known (suc fuel) child visited (some cursor) k h = elim (dec cursor child) [
    | yes same ↦ (true, ground arith)
    | no other ↦ elim (Bool-cases (contains dec visited cursor)) [
      | inl seen ↦ (true, ground arith)
      | inr fresh ↦
          let fewer = unvisited-lt dec cursor visited g.nodes k fresh in
          let (b, e) =
            walk_total known fuel child (cursor ∷ visited) (g.parent cursor)
              (Knows_parent known cursor (g.parent cursor) refl) (omega (arith, fewer)) in
          (b, ground arith)
    ]
  ]
    where
      Knows_parent :
          ((p c : K) → g.parent c ≡ some p → In p g.nodes)
          → (c : K) (o : Option K) → g.parent c ≡ o
          → Knows o
      Knows_parent known c none e = tt
      Knows_parent known c (some p) e = known p c e

  -- What the walk has visited lies below the cursor.
  abbrev Below : List K → Option K → Type 0
  Below visited cursor = (c v : K) → cursor ≡ some c → In v visited → Above g c v

  Below-next :
      (visited : List K) (cursor : K)
      → Below visited (some cursor)
      → Below (cursor ∷ visited) (g.parent cursor)
  Below-next visited cursor h c v e (inl same) = rw same (parent_of e)
  Below-next visited cursor h c v e (inr earlier) =
      Above-trans g c cursor v (h cursor v refl earlier) (parent_of e)

  walk-true :
      (acyclic : (k : K) → ¬ Above g k k) (fuel : ℕ) (child : K) (visited : List K)
      (cursor : Option K)
      → Below visited cursor
      → walk dec fuel g child visited cursor ≡ some true
      → Hits child cursor
  unfolding walk
  walk-true acyclic zero child visited cursor h e = cc
  walk-true acyclic (suc fuel) child visited none h e = cc
  walk-true acyclic (suc fuel) child visited (some cursor) h e = elim (dec cursor child) [
    | yes same ↦ inl (sym same)
    | no other ↦ elim (Bool-cases (contains dec visited cursor)) [
      | inl seen ↦
          absurd (acyclic cursor (h cursor cursor refl ((contains_iff dec visited cursor).0 seen)))
      | inr fresh ↦ Hits-parent cursor (g.parent cursor) refl (
          walk-true acyclic fuel child (cursor ∷ visited) (g.parent cursor)
            (Below-next visited cursor h) (ground arith))
    ]
  ]
    where
      Hits-parent : (c : K) (o : Option K) → g.parent c ≡ o → Hits child o → Hits child (some c)
      Hits-parent c none e hit = absurd hit
      Hits-parent c (some p) e (inl same) = inr (parent_of (rw same e))
      Hits-parent c (some p) e (inr above) = inr (further e above)

  Hits-of_Above : (child c : K) → Above g child c → Hits child (g.parent c)
  Hits-of_Above child c (parent_of e) = rw e (inl refl)
  Hits-of_Above child c (further e r) = rw e (inr r)

  walk-false :
      (fuel : ℕ) (child : K) (visited : List K) (cursor : Option K)
      → walk dec fuel g child visited cursor ≡ some false
      → ¬ Hits child cursor
  unfolding walk
  walk-false zero child visited cursor e h = cc
  walk-false (suc fuel) child visited none e h = h
  walk-false (suc fuel) child visited (some cursor) e (inl same) = ground arith
  walk-false (suc fuel) child visited (some cursor) e (inr above) =
      walk-false fuel child (cursor ∷ visited) (g.parent cursor) (ground arith)
        (Hits-of_Above child cursor above)

  -- A node above `parent`, or `parent` itself where it has children.
  abbrev pub Closes : K → K → Type 0
  Closes parent child = Above g child parent ⊎ ((child ≡ parent) × (g.children child ≢ []))

  -- In a forest the test ends, for a parent that is a node, and it answers true exactly if `child` is an
  -- ancestor of `parent`, or is `parent` itself and has children.
  pub would_create_cycle_lem :
      (parent child : K)
      → IsForest g
      → In parent g.nodes
      → (b : Bool) × (would_create_cycle dec g parent child ≡ some b)
        × ((b ≡ true) ↔ Closes parent child)
  unfolding would_create_cycle
  would_create_cycle_lem parent child f k = leaf_or_walk (g.children child) refl
    where
      leaf_or_walk :
          (l : List K)
          → g.children child ≡ l
          → (b : Bool) × (would_create_cycle dec g parent child ≡ some b)
            × ((b ≡ true) ↔ Closes parent child)
      leaf_or_walk [] e = (false, rw e refl, (λ h. cc, λ h. absurd (no_leaf h)))
        where
          no_leaf : ¬ Closes parent child
          no_leaf (inl above) = not-Above_of_leaf g f child parent e above
          no_leaf (inr (same, more)) = more e
      leaf_or_walk (x ∷ xs) e =
          let (b, r) =
            walk_total f.known (suc (suc (length g.nodes))) child [] (some parent) k
              (omega (arith, unvisited-nil dec g.nodes)) in
          (b, ground arith, answer b r)
        where
          more : g.children child ≢ []
          more none_left = cc

          hit : Hits child (some parent) → Closes parent child
          hit (inl same) = inr (same, more)
          hit (inr above) = inl above

          missed : ¬ Hits child (some parent) → ¬ Closes parent child
          missed h (inl above) = h (inr above)
          missed h (inr (same, _)) = h (inl same)

          answer :
              (b : Bool)
              → walk dec (suc (suc (length g.nodes))) g child [] (some parent) ≡ some b
              → (b ≡ true) ↔ Closes parent child
          answer true r = (
            λ _. hit (walk-true f.acyclic _ child [] (some parent) (λ c v _ h. absurd h) r),
            λ _. refl,
          )
          answer false r = (λ h. cc, λ c. absurd (missed (walk-false _ child [] (some parent) r) c))
