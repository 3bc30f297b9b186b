-- ===== src/Threading/Links/Tests.antt =====
-- The account graph at concrete deliveries.
use supamail.Common.{◌≡◌, refl, Bool, true, false, Option, none, some, List, [], ◌∷◌, ℕ, map, ltb}
use supamail.Common.Keys.{contains, set_add, set_delete}
use supamail.Common.Text.{same_codes}
use native.Mathlib.Decide.{ℕ_discrete}
use supamail.Threading.Graph.{attach, add_node, detach, link, walk, would_create_cycle}
use supamail.Threading.Graph.Forest.{IsForest}
use supamail.Threading.Links.{
  Delivery, NodeKey, Warning, AccountGraph, link_account, node_key, link_deliveries, sort_by,
  insert_by, mark_ambiguous, is_ambiguous_owner, token_owners, link_delivery, link_references,
  link_to_prior, attach_or_warn, NodeKey-discrete, reference_node, node_of_owners, Text-discrete,
  Warning-discrete, add_deliveries, forward_keys,
}
use supamail.Threading.Links.Forest.{Present}
use supamail.Threading.Links.Order.{DistinctBy}
use supamail.Threading.Links.Account.{AllSettled, visited, link_account_lem}

abbrev delivery_of : ℕ → Option (List ℕ) → List (List ℕ) → Bool → Delivery
delivery_of key id references forward = record {
  key = key ∷ [];
  message_id = id;
  provider_thread_key = none;
  reference_ids = references;
  is_forward = forward;
  weak_subject_blocked = false;
  warnings = [];
}

-- A root, an answer to it, an answer to both that also names a message that is missing, and a
-- message that names itself.
abbrev conversation : List Delivery
conversation =
    delivery_of 1 (some (1 ∷ [])) [] false
    ∷ delivery_of 2 (some (2 ∷ [])) ((1 ∷ []) ∷ []) false
    ∷ delivery_of 3 none ((9 ∷ []) ∷ (1 ∷ []) ∷ (2 ∷ []) ∷ []) false
    ∷ delivery_of 4 (some (4 ∷ [])) ((4 ∷ []) ∷ []) false
    ∷ []

-- Keys in descending order.
abbrev later_first : Delivery → Delivery → Bool
later_first d e = ltb (first e.key) (first d.key)
  where
    first : List ℕ → ℕ
    first [] = 0
    first (x ∷ xs) = x

abbrev parents : Option (List Delivery × AccountGraph) → List (Option NodeKey)
parents none = []
parents (some (outs, g)) = map (λ d. g.parent (node_key conversation d)) conversation

abbrev warnings : Option (List Delivery × AccountGraph) → List (List Warning)
warnings none = []
warnings (some (outs, g)) = map (λ d. d.warnings) outs

parents_of_conversation :
    parents (link_account later_first true conversation)
    ≡ some (NodeKey.missing (9 ∷ []))
      ∷ some (NodeKey.reference (1 ∷ []))
      ∷ some (NodeKey.reference (2 ∷ []))
      ∷ none
      ∷ []
unfolding link_account link_deliveries sort_by insert_by mark_ambiguous is_ambiguous_owner
    token_owners same_codes link_delivery link_references link_to_prior attach_or_warn attach
    NodeKey-discrete reference_node node_of_owners node_key Text-discrete ℕ_discrete contains
    set_add set_delete add_node detach link walk would_create_cycle Warning-discrete add_deliveries
    forward_keys
parents_of_conversation = refl

warnings_of_conversation :
    warnings (link_account later_first true conversation)
    ≡ (Warning.reference_cycle_ignored ∷ []) ∷ [] ∷ [] ∷ [] ∷ []
unfolding link_account link_deliveries sort_by insert_by mark_ambiguous is_ambiguous_owner
    token_owners same_codes link_delivery link_references link_to_prior attach_or_warn attach
    NodeKey-discrete reference_node node_of_owners node_key Text-discrete ℕ_discrete contains
    set_add set_delete add_node detach link walk would_create_cycle Warning-discrete add_deliveries
    forward_keys
warnings_of_conversation = refl

distinct_keys : DistinctBy (λ d. d.key) conversation
distinct_keys = (
  ((λ e. cc), ((λ e. cc), ((λ e. cc), tt))),
  (((λ e. cc), ((λ e. cc), tt)), (((λ e. cc), tt), (tt, tt))),
)

link_account_example :
    (outs : List Delivery) × (h : AccountGraph) × (link_account later_first true conversation
      ≡ some (outs, h))
    × IsForest h
    × Present conversation h conversation
    × AllSettled conversation h (visited later_first conversation) outs
link_account_example = link_account_lem later_first true conversation distinct_keys
