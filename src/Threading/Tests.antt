-- ===== src/Threading/Tests.antt =====
-- Runs of the thread graph and of the disjoint set, and their theorems at these inputs.
use supamail.Common.{
  ℕ, ◌≡◌, refl, ◌≢◌, ◌↔◌, ◌⊎◌, inl, Bool, true, false, Option, none, some, List, [], ◌∷◌, ltb,
  arith,
}
use native.Mathlib.Decide.{ℕ_discrete}
use supamail.Common.Keys.{contains, set_add, set_delete}
use supamail.Common.Order.{StrictOrder}
use supamail.Threading.Graph.{Graph, add_node, walk, would_create_cycle, detach, link, attach}
use supamail.Threading.Graph.Forest.{Above, IsForest, parent_of, further}
use supamail.Threading.Graph.Walk.{Closes, would_create_cycle_lem}
use supamail.Threading.Graph.Attach.{attach-IsForest, attach_iff}
use supamail.Threading.DisjointSet.{
  Sets, empty_sets, set_parent, add, find_root, compress, find, link_roots, union, union_all,
}
use supamail.Threading.DisjointSet.Classes.{Linked, find_eq_iff}

ready : Unit {0}
unfolding attach link detach would_create_cycle walk contains set_add set_delete add_node ℕ_discrete
ready = tt

ready_sets : Unit {0}
unfolding set_parent add find_root compress find link_roots union union_all ℕ_discrete
ready_sets = tt

-- Two nodes without a link.
abbrev apart : Graph ℕ
apart = record { nodes = 1 ∷ 2 ∷ []; parent = λ _. none; children = λ _. [] }

apart-root : (a k : ℕ) → ¬ Above apart a k
apart-root a k (parent_of e) = cc
apart-root a k (further e h) = cc

apart-IsForest : IsForest apart
apart-IsForest = record {
  linked = λ p c. (λ e. cc, λ h. absurd h);
  known = λ p c e. cc;
  acyclic = λ k. apart-root k k;
}

abbrev chain_of : Option (Bool × Graph ℕ) → Option ℕ
chain_of none = none
chain_of (some (b, g)) = g.parent 2

one_link : chain_of (attach ℕ_discrete 1 2 false apart) ≡ some 1
unfolding ready
one_link = refl

attach-IsForest_example :
    (b : Bool) × (h : Graph ℕ) × (attach ℕ_discrete 1 2 false apart ≡ some (b, h))
    × IsForest h
    × (h.nodes ≡ apart.nodes)
attach-IsForest_example = attach-IsForest ℕ_discrete apart 1 2 false apart-IsForest (inl refl)

would_create_cycle_lem_example :
    (b : Bool) × (would_create_cycle ℕ_discrete apart 1 2 ≡ some b)
    × ((b ≡ true) ↔ Closes ℕ_discrete apart 1 2)
would_create_cycle_lem_example =
    would_create_cycle_lem ℕ_discrete apart 1 2 apart-IsForest (inl refl)

linked : Graph ℕ
linked = link ℕ_discrete 1 2 apart

attach_linked : attach ℕ_discrete 1 2 false apart ≡ some (true, linked)
unfolding ready linked
attach_linked = refl

attach_iff_example :
    ((true ≡ true)
      ↔ ((¬ (◌≡◌ {A = ℕ} 1 2)) × (¬ Above apart 2 1) × ((apart.parent 2 ≡ none) ⊎ (false ≡ true))))
    × (true ≡ true
        → (linked.parent 2 ≡ some 1) × ((x : ℕ) → x ≢ 2 → linked.parent x ≡ apart.parent x))
    × (true ≡ false → linked ≡ apart)
attach_iff_example =
    attach_iff ℕ_discrete apart 1 2 false true linked apart-IsForest (inl refl) attach_linked

-- The order of the numbers.
ltb_irrefl : (a : ℕ) → ltb a a ≡ false
ltb_irrefl a = ground arith

ltb_trans : (a b c : ℕ) → ltb a b ≡ true → ltb b c ≡ true → ltb a c ≡ true
ltb_trans a b c h k = ground arith

ltb_total : (a b : ℕ) → a ≢ b → (ltb a b ≡ true) ⊎ (ltb b a ≡ true)
ltb_total a b ne = ground arith

abbrev numbers : StrictOrder ℕ
numbers = record {
  before = ltb;
  before_irrefl = ltb_irrefl;
  before_trans = ltb_trans;
  before_total = ltb_total;
}

abbrev joined : List (ℕ × ℕ)
joined = (3, 2) ∷ (4, 3) ∷ []

abbrev root_of : Option (Sets ℕ) → ℕ → Option ℕ
root_of none k = none
root_of (some s) k = elim (find ℕ_discrete k s) [ none ↦ none | some r ↦ some r.0 ]

three_joined : root_of (union_all ℕ_discrete numbers joined empty_sets) 4 ≡ some 2
unfolding ready_sets
three_joined = refl

find_eq_iff_example :
    (t : Sets ℕ) × (u : Sets ℕ) × (w : Sets ℕ) × (ra : ℕ) × (rb : ℕ) × (union_all ℕ_discrete numbers
        joined empty_sets
      ≡ some t)
    × (find ℕ_discrete 4 t ≡ some (ra, u))
    × (find ℕ_discrete 2 u ≡ some (rb, w))
    × ((ra ≡ rb) ↔ Linked joined 4 2)
find_eq_iff_example = find_eq_iff numbers ℕ_discrete joined 4 2

abbrev sets_of : Option (Sets ℕ) → Sets ℕ
sets_of none = empty_sets
sets_of (some s) = s

abbrev left_by : Option (ℕ × Sets ℕ) → Sets ℕ
left_by none = empty_sets
left_by (some r) = r.1

all_joined :
    union_all ℕ_discrete numbers joined empty_sets
    ≡ some (sets_of (union_all ℕ_discrete numbers joined empty_sets))
unfolding ready_sets
all_joined = refl

found_two :
    find ℕ_discrete 4 (sets_of (union_all ℕ_discrete numbers joined empty_sets))
    ≡ some
        (2, left_by (find ℕ_discrete 4 (sets_of (union_all ℕ_discrete numbers joined empty_sets))))
unfolding ready_sets
found_two = refl
