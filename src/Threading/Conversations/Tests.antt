-- ===== src/Threading/Conversations/Tests.antt =====
-- The conversations at concrete deliveries.
use supamail.Common.{
  ◌≡◌, refl, ◌↔◌, inl, inr, Bool, true, false, Option, none, some, List, [], ◌∷◌, ℕ, map,
  Option-cases, ap, subst, sym,
}
use supamail.Common.Keys.{contains, set_add, set_delete}
use supamail.Common.Text.{same_codes}
use native.Mathlib.Decide.{ℕ_discrete}
use supamail.Threading.Graph.{attach, add_node, detach, link, walk, would_create_cycle}
use supamail.Threading.Graph.Forest.{IsForest}
use supamail.Threading.DisjointSet.{
  Sets, empty_sets, set_parent, add, find_root, compress, find, link_roots, union,
}
use supamail.Threading.DisjointSet.Classes.{Closure}
use supamail.Threading.Links.{
  Delivery, NodeKey, AccountGraph, link_account, node_key, link_deliveries, sort_by, insert_by,
  mark_ambiguous, is_ambiguous_owner, token_owners, link_delivery, link_references, link_to_prior,
  attach_or_warn, NodeKey-discrete, reference_node, node_of_owners, Text-discrete, Warning-discrete,
  add_deliveries, forward_keys, empty_graph,
}
use supamail.Threading.Links.Order.{DistinctBy}
use supamail.Threading.KeyOrder.{text_before, text_order, node_order, pair_before}
use supamail.Threading.Conversations.{
  Providing, add_all, union_parent, union_parents, components, push_group, group_delivery,
  provider_groups, put_member, put_members, members, add_forward_root, forward_roots,
  forward_components, outside, eligible, mark_members, connect, connect_eligible, join_group,
  join_groups, join_providers, join_account,
}
use supamail.Threading.Conversations.Account.{
  Link, ByParents, join_account_lem, join_account-forward,
}

abbrev delivery_of : ℕ → List (List ℕ) → Bool → Option (List ℕ) → Delivery
delivery_of key references forward thread = record {
  key = key ∷ [];
  message_id = some (key ∷ []);
  provider_thread_key = thread;
  reference_ids = references;
  is_forward = forward;
  weak_subject_blocked = false;
  warnings = [];
}

-- Two messages of one thread, a forward in the same thread, and an answer to the forward.
abbrev account : List Delivery
account =
    delivery_of 1 [] false (some (7 ∷ []))
    ∷ delivery_of 2 [] false (some (7 ∷ []))
    ∷ delivery_of 3 [] true (some (7 ∷ []))
    ∷ delivery_of 4 ((3 ∷ []) ∷ []) false none
    ∷ []

abbrev by_key : Delivery → Delivery → Bool
by_key d e = text_order.before d.key e.key

abbrev joined : Option (AccountGraph × Providing)
joined = join_account node_order text_order by_key true account

abbrev no_providing : Providing
no_providing = record { sets = empty_sets; group_size = λ k. none; excluded = []; connected = [] }

abbrev graph_of : Option (AccountGraph × Providing) → AccountGraph
graph_of none = empty_graph
graph_of (some r) = r.0

abbrev providing_of : Option (AccountGraph × Providing) → Providing
providing_of none = no_providing
providing_of (some r) = r.1

abbrev root_of : NodeKey → Sets NodeKey → Option NodeKey
root_of k s = elim (find NodeKey-discrete k s) [ none ↦ none | some r ↦ some r.0 ]

abbrev sets_after : NodeKey → Sets NodeKey → Sets NodeKey
sets_after k s = elim (find NodeKey-discrete k s) [ none ↦ empty_sets | some r ↦ r.1 ]

abbrev ref : ℕ → NodeKey
ref n = NodeKey.reference (n ∷ [])

roots_of_account :
    map (λ d. root_of (node_key account d) (providing_of joined).sets) account
    ≡ some (ref 1) ∷ some (ref 1) ∷ some (ref 3) ∷ some (ref 3) ∷ []
unfolding link_account link_deliveries sort_by insert_by mark_ambiguous is_ambiguous_owner
    token_owners same_codes link_delivery link_references link_to_prior attach_or_warn attach
    NodeKey-discrete reference_node node_of_owners node_key Text-discrete ℕ_discrete contains
    set_add set_delete add_node detach link walk would_create_cycle Warning-discrete add_deliveries
    forward_keys set_parent add find_root compress find link_roots union text_before pair_before
    add_all union_parent union_parents components push_group group_delivery provider_groups
    put_member put_members members add_forward_root forward_roots forward_components outside
    eligible mark_members connect connect_eligible join_group join_groups join_providers
    join_account
roots_of_account = refl

excluded_of_account :
    ((providing_of joined).excluded ≡ (3 ∷ []) ∷ [])
    × (map (λ d. (providing_of joined).group_size d.key) account
        ≡ some 2 ∷ some 2 ∷ some 1 ∷ none ∷ [])
unfolding link_account link_deliveries sort_by insert_by mark_ambiguous is_ambiguous_owner
    token_owners same_codes link_delivery link_references link_to_prior attach_or_warn attach
    NodeKey-discrete reference_node node_of_owners node_key Text-discrete ℕ_discrete contains
    set_add set_delete add_node detach link walk would_create_cycle Warning-discrete add_deliveries
    forward_keys set_parent add find_root compress find link_roots union text_before pair_before
    add_all union_parent union_parents components push_group group_delivery provider_groups
    put_member put_members members add_forward_root forward_roots forward_components outside
    eligible mark_members connect connect_eligible join_group join_groups join_providers
    join_account
excluded_of_account = (refl, refl)

distinct_keys : DistinctBy (λ d. d.key) account
distinct_keys = (
  ((λ e. cc), ((λ e. cc), ((λ e. cc), tt))),
  (((λ e. cc), ((λ e. cc), tt)), (((λ e. cc), tt), (tt, tt))),
)

join_account_lem_example :
    (g : AccountGraph) × (p : Providing) × (rx : NodeKey) × (t : Sets NodeKey) × (ry : NodeKey)
    × (u : Sets NodeKey) × (join_account node_order text_order by_key true account ≡ some (g, p))
    × IsForest g
    × (find NodeKey-discrete (ref 1) p.sets ≡ some (rx, t))
    × (find NodeKey-discrete (ref 2) t ≡ some (ry, u))
    × ((rx ≡ ry)
        ↔ Closure (Link node_order text_order by_key true account distinct_keys g) (ref 1) (ref 2))
join_account_lem_example =
    join_account_lem node_order text_order by_key true account distinct_keys (ref 1) (ref 2)

is_some : Option (AccountGraph × Providing) → Bool
is_some none = false
is_some (some r) = true

returned_of :
    (j : Option (AccountGraph × Providing))
    → is_some j ≡ true
    → j ≡ some (graph_of j, providing_of j)
unfolding is_some
returned_of none e = absurd cc
returned_of (some (g, p)) e = refl

joined_is_some : is_some joined ≡ true
unfolding link_account link_deliveries sort_by insert_by mark_ambiguous is_ambiguous_owner
    token_owners same_codes link_delivery link_references link_to_prior attach_or_warn attach
    NodeKey-discrete reference_node node_of_owners node_key Text-discrete ℕ_discrete contains
    set_add set_delete add_node detach link walk would_create_cycle Warning-discrete add_deliveries
    forward_keys set_parent add find_root compress find link_roots union text_before pair_before
    add_all union_parent union_parents components push_group group_delivery provider_groups
    put_member put_members members add_forward_root forward_roots forward_components outside
    eligible mark_members connect connect_eligible join_group join_groups join_providers
    join_account is_some
joined_is_some = refl

found_of :
    (k r : NodeKey) (s : Sets NodeKey)
    → root_of k s ≡ some r
    → find NodeKey-discrete k s ≡ some (r, sets_after k s)
found_of k r s e = elim (Option-cases (find NodeKey-discrete k s)) [
  | inl stuck ↦ let f = rw (stuck, root_of) at e in absurd cc
  | inr ((q, t), found) ↦
      let f = rw (found, root_of) at e in
      let same : q ≡ r = cc in rw (found, sets_after) (ap (λ z. some (z, t)) same)
]

abbrev before_find : Sets NodeKey
before_find = (providing_of joined).sets

root_of_answer :
    (root_of (ref 4) before_find ≡ some (ref 3))
    × (root_of (ref 3) (sets_after (ref 4) before_find) ≡ some (ref 3))
    × (node_key account (delivery_of 3 [] true (some (7 ∷ []))) ≡ ref 3)
unfolding link_account link_deliveries sort_by insert_by mark_ambiguous is_ambiguous_owner
    token_owners same_codes link_delivery link_references link_to_prior attach_or_warn attach
    NodeKey-discrete reference_node node_of_owners node_key Text-discrete ℕ_discrete contains
    set_add set_delete add_node detach link walk would_create_cycle Warning-discrete add_deliveries
    forward_keys set_parent add find_root compress find link_roots union text_before pair_before
    add_all union_parent union_parents components push_group group_delivery provider_groups
    put_member put_members members add_forward_root forward_roots forward_components outside
    eligible mark_members connect connect_eligible join_group join_groups join_providers
    join_account
root_of_answer = (refl, refl, refl)

found_forward :
    find NodeKey-discrete
      (node_key account (delivery_of 3 [] true (some (7 ∷ []))))
      (sets_after (ref 4) before_find)
    ≡ some (ref 3, sets_after (ref 3) (sets_after (ref 4) before_find))
found_forward =
    subst
      (λ k.
        find NodeKey-discrete k (sets_after (ref 4) before_find)
        ≡ some (ref 3, sets_after (ref 3) (sets_after (ref 4) before_find)))
      (sym root_of_answer.2)
      (found_of (ref 3) (ref 3) (sets_after (ref 4) before_find) root_of_answer.1)

join_account-forward_example :
    ByParents (graph_of joined) (ref 4) (node_key account (delivery_of 3 [] true (some (7 ∷ []))))
join_account-forward_example =
    join_account-forward node_order text_order by_key true account distinct_keys (graph_of joined)
      (providing_of joined) (ref 4) (ref 3) _ _ (delivery_of 3 [] true (some (7 ∷ [])))
      (returned_of joined joined_is_some) refl (inr (inr (inl refl))) refl
      (found_of (ref 4) (ref 3) before_find root_of_answer.0) found_forward
