-- ===== src/Threading/Conversations.antt =====
-- apps/api/src/threading.ts: the conversations of `threadAccount`, from the linked nodes to the
-- provider's threads. `boundaries` stands for `groupingVersion >= 3`.
pub mod Edges
pub mod Groups
pub mod Forwards
pub mod Eligible
pub mod Connections
pub mod Bounded
pub mod Threads
pub mod Providers
pub mod Account
mod Tests
use supamail.Common.{
  ℕ, Bool, true, false, not, Option, none, some, List, [], ◌∷◌, ◌++◌, map, length, ◌==◌,
  if◌then◌else◌,
}
use supamail.Common.Keys.{contains, set_add, update}
use supamail.Common.Order.{StrictOrder}
use supamail.Common.Text.{same_codes}
use supamail.Threading.Graph.{Graph}
use supamail.Threading.DisjointSet.{Sets, empty_sets, add, find, union}
use supamail.Threading.Links.{
  NodeKey, NodeKey-discrete, Text-discrete, Delivery, node_key, AccountGraph, sort_by, link_account,
}

module _ {K : Type 0} (dec : Discrete K) where
  unfoldable pub add_all : List K → Sets K → Sets K
  add_all [] s = s
  add_all (k ∷ ks) s = add_all ks (add dec k s)

  unfoldable pub union_parent : StrictOrder K → Graph K → K → Sets K → Option (Sets K)
  union_parent o g k s = elim (g.parent k) [ none ↦ some s | some p ↦ union dec o k p s ]

  -- `for (const node of nodes.values()) if (node.parent) sets.union(node.key, node.parent.key);`
  unfoldable pub union_parents : StrictOrder K → Graph K → List K → Sets K → Option (Sets K)
  union_parents o g [] s = some s
  union_parents o g (k ∷ ks) s = elim (union_parent o g k s) [
    | none ↦ none
    | some t ↦ union_parents o g ks t
  ]

  unfoldable pub components : StrictOrder K → Graph K → Option (Sets K)
  components o g = union_parents o g g.nodes (add_all g.nodes empty_sets)

-- `providerThreadKey`, where it is not empty.
abbrev pub thread_of : Delivery → Option (List ℕ)
thread_of d = elim d.provider_thread_key [
  | none ↦ none
  | some thread ↦ if length thread == 0 then none else some thread
]

abbrev pub Groups : Type 0
Groups = List (List ℕ × List Delivery)

-- A key of `providerGroups` is the account, which is the same for all, and the thread.
unfoldable pub push_group : List ℕ → Delivery → Groups → Groups
push_group thread d [] = (thread, d ∷ []) ∷ []
push_group thread d ((other, ds) ∷ groups) =
    let rest = push_group thread d groups in
    if same_codes other thread then (other, ds ++ d ∷ []) ∷ groups else (other, ds) ∷ rest

unfoldable pub group_delivery : Delivery → Groups → Groups
group_delivery d groups = elim (thread_of d) [
  | none ↦ groups
  | some thread ↦ push_group thread d groups
]

unfoldable pub provider_groups : List Delivery → Groups → Groups
provider_groups [] groups = groups
provider_groups (d ∷ ds) groups = provider_groups ds (group_delivery d groups)

-- `new Map(group.map((delivery) => [delivery.key, delivery])).values()`
unfoldable pub put_member : Delivery → List Delivery → List Delivery
put_member d [] = d ∷ []
put_member d (e ∷ es) =
    let rest = put_member d es in if same_codes e.key d.key then d ∷ es else e ∷ rest

unfoldable pub put_members : List Delivery → List Delivery → List Delivery
put_members [] es = es
put_members (d ∷ ds) es = put_members ds (put_member d es)

-- What the loop over the provider's groups changes; `excluded` has the keys of the deliveries that
-- get the warning `forward_provider_thread_not_conversation_edge`.
pub record Providing : Type 0 where
  pub sets : Sets NodeKey
  pub group_size : List ℕ → Option ℕ
  pub excluded : List (List ℕ)
  pub connected : List (List ℕ)

module _ (o : StrictOrder NodeKey) (by_key : StrictOrder (List ℕ))
    (deliveries : List Delivery) where
  abbrev key_before : Delivery → Delivery → Bool
  key_before d e = by_key.before d.key e.key

  unfoldable pub members : List Delivery → List Delivery
  members group = sort_by key_before (put_members group [])

  unfoldable pub add_forward_root :
      Delivery → List NodeKey → Sets NodeKey → Option (List NodeKey × Sets NodeKey)
  add_forward_root d roots s = elim d.is_forward [
    | false ↦ some (roots, s)
    | true ↦ elim (find NodeKey-discrete (node_key deliveries d) s) [
      | none ↦ none
      | some (root, t) ↦ some (set_add NodeKey-discrete root roots, t)
    ]
  ]

  unfoldable pub forward_roots :
      List Delivery → List NodeKey → Sets NodeKey → Option (List NodeKey × Sets NodeKey)
  forward_roots [] roots s = some (roots, s)
  forward_roots (d ∷ ds) roots s = elim (add_forward_root d roots s) [
    | none ↦ none
    | some (more, t) ↦ forward_roots ds more t
  ]

  -- `forwardBoundaryComponents`
  unfoldable pub forward_components : Bool → Sets NodeKey → Option (List NodeKey × Sets NodeKey)
  forward_components boundaries s = elim boundaries [
    | true ↦ forward_roots deliveries [] s
    | false ↦ some ([], s)
  ]

  unfoldable pub outside :
      List NodeKey → List Delivery → Sets NodeKey → Option (List Delivery × Sets NodeKey)
  outside roots [] s = some ([], s)
  outside roots (m ∷ ms) s = elim (find NodeKey-discrete (node_key deliveries m) s) [
    | none ↦ none
    | some (root, t) ↦ elim (outside roots ms t) [
      | none ↦ none
      | some (es, u) ↦ some (if contains NodeKey-discrete roots root then es else m ∷ es, u)
    ]
  ]

  unfoldable pub eligible :
      Bool → List NodeKey → List Delivery → Sets NodeKey → Option (List Delivery × Sets NodeKey)
  eligible boundaries roots ms s = elim boundaries [
    | true ↦ outside roots ms s
    | false ↦ some (ms, s)
  ]

  unfoldable pub mark_members : List Delivery → List Delivery → Providing → Providing
  mark_members es [] p = p
  mark_members es (m ∷ ms) p =
      let included = contains Text-discrete (map (λ e. e.key) es) m.key in
      mark_members es ms (record p {
        group_size =
            update Text-discrete p.group_size m.key (some (if included then length es else 1));
        excluded = if included then p.excluded else set_add Text-discrete m.key p.excluded;
      })

  unfoldable pub connect : NodeKey → List Delivery → Providing → Option Providing
  connect first [] p = some p
  connect first (m ∷ ms) p = elim (union NodeKey-discrete o first (node_key deliveries m) p.sets) [
    | none ↦ none
    | some t ↦
        connect first ms
          (record p { sets = t; connected = set_add Text-discrete m.key p.connected })
  ]

  unfoldable pub connect_eligible : List Delivery → Providing → Option Providing
  connect_eligible [] p = some p
  connect_eligible (e ∷ []) p = some p
  connect_eligible (e ∷ f ∷ es) p = connect (node_key deliveries e) (e ∷ f ∷ es) p

  -- A round of the loop over the provider's groups.
  unfoldable pub join_group : Bool → List NodeKey → List Delivery → Providing → Option Providing
  join_group boundaries roots group p =
      let ms = members group in
      elim (eligible boundaries roots ms p.sets) [
        | none ↦ none
        | some (es, t) ↦ connect_eligible es (mark_members es ms (record p { sets = t }))
      ]

  unfoldable pub join_groups : Bool → List NodeKey → Groups → Providing → Option Providing
  join_groups boundaries roots [] p = some p
  join_groups boundaries roots ((thread, group) ∷ groups) p =
      elim (join_group boundaries roots group p) [
        | none ↦ none
        | some q ↦ join_groups boundaries roots groups q
      ]

  unfoldable pub join_providers : Bool → Sets NodeKey → Option Providing
  join_providers boundaries s = elim (forward_components boundaries s) [
    | none ↦ none
    | some (roots, t) ↦
        join_groups boundaries roots (provider_groups deliveries [])
          (record { sets = t; group_size = λ k. none; excluded = []; connected = [] })
  ]

-- The conversations by references and by the provider's threads.
unfoldable pub join_account :
    StrictOrder NodeKey
    → StrictOrder (List ℕ)
    → (Delivery → Delivery → Bool)
    → Bool
    → List Delivery
    → Option (AccountGraph × Providing)
join_account o by_key precedes boundaries deliveries =
    elim (link_account precedes boundaries deliveries) [
      | none ↦ none
      | some (outs, g) ↦ elim (components NodeKey-discrete o g) [
        | none ↦ none
        | some s ↦ elim (join_providers o by_key deliveries boundaries s) [
          | none ↦ none
          | some p ↦ some (g, p)
        ]
      ]
    ]
