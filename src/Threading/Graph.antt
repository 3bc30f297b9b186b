-- ===== src/Threading/Graph.antt =====
-- apps/api/src/threading.ts: `GraphNode`, `wouldCreateCycle`, `detach` and `attach`. The nodes are
-- mutable objects that refer to one another; the `nodes` map holds one object for each key, so a
-- reference is a key here, and the graph is the store: one field of every node is one map.
pub mod Forest
pub mod Walk
pub mod Attach
use supamail.Common.{
  ℕ, zero, suc, ◌+◌, Bool, true, false, ◌&&◌, ◌||◌, not, Option, none, some, List, [], ◌∷◌, ◌++◌,
  length, ltb, if◌then◌else◌,
}
use mathlib.Core.Logic.{ite}
use supamail.Common.Keys.{update, contains, set_add, set_delete}

pub record Graph (K : Type 0) : Type 0 where
  pub nodes : List K
  pub parent : K → Option K
  pub children : K → List K

module _ {K : Type 0} (dec : Discrete K) where
  -- `addNode`: an existing node is kept as it is.
  unfoldable pub add_node : K → Graph K → Graph K
  add_node k g = if contains dec g.nodes k then g else record g {
    nodes = g.nodes ++ k ∷ [];
    parent = update dec g.parent k none;
    children = update dec g.children k [];
  }

  -- The `while (cursor)` loop of `wouldCreateCycle`. Each round visits one more node, so one round
  -- more than there are nodes is enough; `none` means that the rounds ran out.
  unfoldable pub walk : ℕ → Graph K → K → List K → Option K → Option Bool
  walk zero g child visited cursor = none
  walk (suc fuel) g child visited none = some false
  walk (suc fuel) g child visited (some cursor) =
      let rest = walk fuel g child (cursor ∷ visited) (g.parent cursor) in
      ite (dec cursor child) (some true) (if contains dec visited cursor then some true else rest)

  unfoldable pub would_create_cycle : Graph K → K → K → Option Bool
  would_create_cycle g parent child =
      if ltb 0 (length (g.children child))
      then walk (suc (suc (length g.nodes))) g child [] (some parent)
      else some false

  unfoldable pub detach : K → Graph K → Graph K
  detach node g = elim (g.parent node) [
    | none ↦ record g { parent = update dec g.parent node none }
    | some p ↦ record g {
      children = update dec g.children p (set_delete dec node (g.children p));
      parent = update dec g.parent node none;
    }
  ]

  abbrev pub has_parent : Graph K → K → Bool
  has_parent g k = elim (g.parent k) [ none ↦ false | some _ ↦ true ]

  -- `child.parent = parent; parent.children.add(child);`
  unfoldable pub link : K → K → Graph K → Graph K
  link parent child g = record g {
    parent = update dec g.parent child (some parent);
    children = update dec g.children parent (set_add dec child (g.children parent));
  }

  -- The Boolean that `attach` returns, with the graph after it.
  unfoldable pub attach : K → K → Bool → Graph K → Option (Bool × Graph K)
  attach parent child replace g =
      elim (ite (dec parent child) (some true) (would_create_cycle g parent child)) [
        | none ↦ none
        | some true ↦ some (false, g)
        | some false ↦
            if has_parent g child && not replace
            then some (false, g)
            else some (true, link parent child (if replace then detach child g else g))
      ]
