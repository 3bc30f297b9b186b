-- ===== src/Common/Order.antt =====
-- A strict total order by a Boolean test, the interface of `left < right` on texts.
use mathlib.Core.Path.{◌≡◌}
use mathlib.Core.Logic.{◌≢◌, ◌⊎◌}
use mathlib.Core.Bool.{Bool, true, false}

pub record StrictOrder (K : Type 0) : Type 0 where
  pub before : K → K → Bool
  pub before_irrefl : (a : K) → before a a ≡ false
  pub before_trans : (a b c : K) → before a b ≡ true → before b c ≡ true → before a c ≡ true
  pub before_total : (a b : K) → a ≢ b → (before a b ≡ true) ⊎ (before b a ≡ true)

-- The sign of a JavaScript comparison function.
pub data Sign : Type 0 where
  negative null positive : Sign

-- `binaryCompare`
abbrev pub binary_compare : {K : Type 0} → StrictOrder K → K → K → Sign
binary_compare o left right = elim (o.before left right) [
  | true ↦ negative
  | false ↦ elim (o.before right left) [ true ↦ positive | false ↦ null ]
]
