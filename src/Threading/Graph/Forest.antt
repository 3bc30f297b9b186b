-- ===== src/Threading/Graph/Forest.antt =====
-- The shape that the links keep: a forest whose parent pointers and child sets agree.
use supamail.Common.{◌≡◌, ◌↔◌, some, []}
use supamail.Common.Keys.{In}
use supamail.Threading.Graph.{Graph}

module _ {K : Type 0} where
  -- `Above g a b`: `a` is a proper ancestor of `b`.
  pub data Above (g : Graph K) (a : K) : K → Type 0 where
    parent_of : {b : K} → g.parent b ≡ some a → Above g a b
    further : {b c : K} → g.parent c ≡ some b → Above g a b → Above g a c

  pub record IsForest (g : Graph K) : Type 0 where
    pub linked : (p c : K) → (g.parent c ≡ some p) ↔ In c (g.children p)
    pub known : (p c : K) → g.parent c ≡ some p → In p g.nodes
    pub acyclic : (k : K) → ¬ Above g k k

  -- Ancestors compose.
  pub Above-trans : (g : Graph K) (a b c : K) → Above g b c → Above g a b → Above g a c
  Above-trans g a b c (parent_of e) h = further e h
  Above-trans g a b c (further {b = d} e r) h = further e (Above-trans g a b d r h)

  -- A node with no children is above no node.
  pub not-Above_of_leaf : (g : Graph K) → IsForest g → (a b : K) → g.children a ≡ [] → ¬ Above g a b
  not-Above_of_leaf g f a b leaf (parent_of {b = c} e) = rw leaf at ((f.linked a c).0 e)
  not-Above_of_leaf g f a b leaf (further {b = d} e r) = not-Above_of_leaf g f a d leaf r
