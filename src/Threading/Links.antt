-- ===== src/Threading/Links.antt =====
-- apps/api/src/threading.ts: the account graph of `threadAccount`, from its deliveries to the links.
-- A node's key is a text that starts with a word for its kind, with each part in JSON, so that the
-- key tells the kind and the parts. A warning is a member of a set; the code also sorts the texts.
pub mod Whole
pub mod Forest
pub mod References
pub mod Order
pub mod Nodes
pub mod Account
mod Tests
use supamail.Common.{
  ℕ, suc, Bool, true, false, ◌&&◌, not, Option, none, some, List, [], ◌∷◌, ◌++◌, map, length, leb,
  ltb, ◌==◌, if◌then◌else◌,
}
use native.Mathlib.Decide.{ℕ_discrete}
use supamail.Common.Keys.{contains, set_add}
use supamail.Common.Text.{same_codes}
use supamail.Threading.Graph.{Graph, add_node, attach, has_parent}

pub data NodeKey : Type 0 where
  reference : (token : List ℕ) → NodeKey
  delivery : (key : List ℕ) → NodeKey
  missing : (token : List ℕ) → NodeKey
  ambiguous : (token : List ℕ) (key : List ℕ) → NodeKey

unfoldable pub Text-discrete : Discrete (List ℕ)
Text-discrete = hlevel (ℕ_discrete)

unfoldable pub NodeKey-discrete : Discrete NodeKey
NodeKey-discrete = hlevel (Text-discrete)

pub data Warning : Type 0 where
  ambiguous_message_id_owner ambiguous_parent_reference_isolated : Warning
  forward_ancestry_not_conversation_edge reference_cycle_ignored : Warning

unfoldable pub Warning-discrete : Discrete Warning
Warning-discrete = hlevel

-- The fields of `Delivery` that the graph reads and writes.
pub record Delivery : Type 0 where
  pub key : List ℕ
  pub message_id : Option (List ℕ)
  pub provider_thread_key : Option (List ℕ)
  pub reference_ids : List (List ℕ)
  pub is_forward : Bool
  pub weak_subject_blocked : Bool
  pub warnings : List Warning

abbrev pub warn : Warning → Delivery → Delivery
warn w d = record d { warnings = set_add Warning-discrete w d.warnings }

-- Whether a delivery owns a token; an empty Message-ID owns none.
abbrev pub owns : List ℕ → Delivery → Bool
owns token d = elim d.message_id [
  | none ↦ false
  | some id ↦ not (length id == 0) && same_codes id token
]

-- `tokenOwners.get(token) ?? []`; the code sorts the owners of a token, of which only a sole one is read.
unfoldable pub token_owners : List ℕ → List Delivery → List Delivery
token_owners token [] = []
token_owners token (d ∷ ds) =
    let rest = token_owners token ds in if owns token d then d ∷ rest else rest

-- The Message-ID of a delivery, where it is not empty.
abbrev pub message_id_of : Delivery → Option (List ℕ)
message_id_of d = elim d.message_id [
  | none ↦ none
  | some id ↦ if length id == 0 then none else some id
]

-- `delivery.nodeKey`
unfoldable pub node_key : List Delivery → Delivery → NodeKey
node_key deliveries d = elim (message_id_of d) [
  | none ↦ NodeKey.delivery d.key
  | some id ↦
      if length (token_owners id deliveries) == 1
      then NodeKey.reference id
      else NodeKey.delivery d.key
]

abbrev pub AccountGraph : Type 0
AccountGraph = Graph NodeKey

abbrev pub empty_graph : AccountGraph
empty_graph = record { nodes = []; parent = λ k. none; children = λ k. [] }

-- The first loop: a node for each delivery.
unfoldable pub add_deliveries : List Delivery → List Delivery → AccountGraph → AccountGraph
add_deliveries deliveries [] g = g
add_deliveries deliveries (d ∷ ds) g =
    add_deliveries deliveries ds (add_node NodeKey-discrete (node_key deliveries d) g)

-- The second loop: the owners of a token that has several.
unfoldable pub is_ambiguous_owner : List Delivery → Delivery → Bool
is_ambiguous_owner deliveries d = elim (message_id_of d) [
  | none ↦ false
  | some id ↦ ltb 1 (length (token_owners id deliveries))
]

unfoldable pub mark_ambiguous : List Delivery → Delivery → Delivery
mark_ambiguous deliveries d =
    if is_ambiguous_owner deliveries d
    then warn Warning.ambiguous_message_id_owner (record d { weak_subject_blocked = true })
    else d

-- What the linking loop changes, while it visits one delivery.
pub record Linking : Type 0 where
  pub graph : AccountGraph
  pub current : Delivery

module _ (deliveries : List Delivery) where
  -- `referenceNode`, by the owners of the token.
  unfoldable pub node_of_owners : List ℕ → List Delivery → Linking → NodeKey × Linking
  node_of_owners token (owner ∷ []) s = (node_key deliveries owner, s)
  node_of_owners token (owner ∷ other ∷ owners) s =
      let k = NodeKey.ambiguous token s.current.key in
      (
        k,
        record {
          graph = add_node NodeKey-discrete k s.graph;
          current =
              warn Warning.ambiguous_parent_reference_isolated
                (record s.current { weak_subject_blocked = true });
        },
      )
  node_of_owners token [] s = (
    NodeKey.missing token,
    record s { graph = add_node NodeKey-discrete (NodeKey.missing token) s.graph },
  )

  unfoldable pub reference_node : List ℕ → Linking → NodeKey × Linking
  reference_node token s = node_of_owners token (token_owners token deliveries) s

  -- `forwardBoundaryNodeKeys.has(key)`; `boundaries` is `groupingVersion >= 3`.
  unfoldable pub forward_keys : List Delivery → List NodeKey
  forward_keys [] = []
  forward_keys (d ∷ ds) =
      let rest = forward_keys ds in if d.is_forward then node_key deliveries d ∷ rest else rest

  abbrev crosses_forward : Bool → NodeKey → Bool
  crosses_forward boundaries k = boundaries && contains NodeKey-discrete (forward_keys deliveries) k

  abbrev note : Warning → Bool → Linking → Linking
  note w test s = record s { current = if test then warn w s.current else s.current }

  -- `attach`, and the warning where it refuses.
  unfoldable pub attach_or_warn : NodeKey → NodeKey → Bool → Linking → Option Linking
  attach_or_warn p c replace s = elim (attach NodeKey-discrete p c replace s.graph) [
    | none ↦ none
    | some (attached, g) ↦
        some (note Warning.reference_cycle_ignored (not attached) (record s { graph = g }))
  ]

  -- The edge from the token before to this one.
  unfoldable pub link_to_prior : Bool → Option NodeKey → NodeKey → Linking → Option Linking
  link_to_prior boundaries none current s = some s
  link_to_prior boundaries (some prior) current s =
      let crosses = crosses_forward boundaries current in
      let warned = note Warning.forward_ancestry_not_conversation_edge crosses s in
      if not (has_parent NodeKey-discrete s.graph current) && not crosses
      then attach_or_warn prior current false warned
      else some warned

  -- The loop over the references of a delivery, with the last node that it met.
  unfoldable pub link_references :
      Bool → Option NodeKey → List (List ℕ) → Linking → Option (Option NodeKey × Linking)
  link_references boundaries prior [] s = some (prior, s)
  link_references boundaries prior (token ∷ tokens) s =
      let (current, found) = reference_node token s in
      elim (link_to_prior boundaries prior current found) [
        | none ↦ none
        | some next ↦ link_references boundaries (some current) tokens next
      ]

  -- A round of the linking loop.
  unfoldable pub link_delivery : Bool → Delivery → AccountGraph → Option Linking
  link_delivery boundaries d g =
      elim (link_references boundaries none d.reference_ids (record { graph = g; current = d })) [
        | none ↦ none
        | some (none, s) ↦ some s
        | some (some prior, s) ↦ attach_or_warn prior (node_key deliveries d) true s
      ]

  -- The linking loop, over the deliveries in the order in which they are visited.
  unfoldable pub link_deliveries :
      Bool → List Delivery → AccountGraph → Option (List Delivery × AccountGraph)
  link_deliveries boundaries [] g = some ([], g)
  link_deliveries boundaries (d ∷ ds) g = elim (link_delivery boundaries d g) [
    | none ↦ none
    | some s ↦ elim (link_deliveries boundaries ds s.graph) [
      | none ↦ none
      | some (rest, final) ↦ some (s.current ∷ rest, final)
    ]
  ]

-- `[...deliveries].sort(…)`: `precedes` tells whether the comparison puts the first before the second.
unfoldable pub insert_by : (Delivery → Delivery → Bool) → Delivery → List Delivery → List Delivery
insert_by precedes d [] = d ∷ []
insert_by precedes d (e ∷ es) =
    let rest = insert_by precedes d es in if precedes e d then e ∷ rest else d ∷ e ∷ es

unfoldable pub sort_by : (Delivery → Delivery → Bool) → List Delivery → List Delivery
sort_by precedes [] = []
sort_by precedes (d ∷ ds) = insert_by precedes d (sort_by precedes ds)

unfoldable pub link_account :
    (Delivery → Delivery → Bool) → Bool → List Delivery → Option (List Delivery × AccountGraph)
link_account precedes boundaries deliveries =
    link_deliveries deliveries boundaries
      (sort_by precedes (map (mark_ambiguous deliveries) deliveries))
      (add_deliveries deliveries deliveries empty_graph)
