-- ===== src/Threading/KeyOrder.antt =====
-- apps/api/src/threading.ts: `binaryCompare` on texts, and an order of the nodes by what their keys are
-- made of. Another order of the nodes only changes which of them stands for its class.
use supamail.Common.{
  ◌≡◌, refl, sym, ap, ◌∙◌, ◌≢◌, ◌⊎◌, inl, inr, Bool, true, false, ◌&&◌, ◌||◌, List, [], ◌∷◌, ℕ, ltb,
  ◌==◌, zero, suc, if◌then◌else◌, arith,
}
use mathlib.Core.Logic.{ite}
use native.Mathlib.Decide.{ℕ_discrete}
use supamail.Common.Order.{StrictOrder}
use supamail.Threading.Links.{NodeKey, Text-discrete}

-- `left < right` on texts: the first unit in which they differ decides.
unfoldable pub text_before : List ℕ → List ℕ → Bool
text_before [] [] = false
text_before [] (y ∷ ys) = true
text_before (x ∷ xs) [] = false
text_before (x ∷ xs) (y ∷ ys) = ltb x y || ((x == y) && text_before xs ys)

pub text_before_irrefl : (xs : List ℕ) → text_before xs xs ≡ false
unfolding text_before
text_before_irrefl [] = refl
text_before_irrefl (x ∷ xs) = ground (arith, text_before_irrefl xs)

pub text_before_trans :
    (xs ys zs : List ℕ)
    → text_before xs ys ≡ true
    → text_before ys zs ≡ true
    → text_before xs zs ≡ true
unfolding text_before
text_before_trans [] [] zs h k = k
text_before_trans [] (y ∷ ys) [] h k = absurd cc
text_before_trans [] (y ∷ ys) (z ∷ zs) h k = refl
text_before_trans (x ∷ xs) [] zs h k = absurd cc
text_before_trans (x ∷ xs) (y ∷ ys) [] h k = absurd cc
text_before_trans (x ∷ xs) (y ∷ ys) (z ∷ zs) h k = ground (arith, text_before_trans xs ys zs)

pub text_before_total :
    (xs ys : List ℕ) → xs ≢ ys → (text_before xs ys ≡ true) ⊎ (text_before ys xs ≡ true)
unfolding text_before
text_before_total [] [] ne = absurd (ne refl)
text_before_total [] (y ∷ ys) ne = inl refl
text_before_total (x ∷ xs) [] ne = inr refl
text_before_total (x ∷ xs) (y ∷ ys) ne = ground (arith, text_before_total xs ys)

abbrev pub text_order : StrictOrder (List ℕ)
text_order = record {
  before = text_before;
  before_irrefl = text_before_irrefl;
  before_trans = text_before_trans;
  before_total = text_before_total;
}

-- The kind of a node, its token and its delivery, in this order.
abbrev pub kind : NodeKey → ℕ
kind (NodeKey.ambiguous token key) = 0
kind (NodeKey.delivery key) = 1
kind (NodeKey.missing token) = 2
kind (NodeKey.reference token) = 3

abbrev pub token_of : NodeKey → List ℕ
token_of (NodeKey.ambiguous token key) = token
token_of (NodeKey.delivery key) = []
token_of (NodeKey.missing token) = token
token_of (NodeKey.reference token) = token

abbrev pub key_of : NodeKey → List ℕ
key_of (NodeKey.ambiguous token key) = key
key_of (NodeKey.delivery key) = key
key_of (NodeKey.missing token) = []
key_of (NodeKey.reference token) = []

-- A strict order of pairs by the first parts, then by the second.
module _ {A B : Type 0} (dec : Discrete A) (first : StrictOrder A) (second : StrictOrder B) where
  unfoldable pub pair_before : A × B → A × B → Bool
  pair_before p q =
      let rest = second.before p.1 q.1 in
      if first.before p.0 q.0 then true else ite (dec p.0 q.0) rest false

  pub pair_before_irrefl : (p : A × B) → pair_before p p ≡ false
  unfolding pair_before
  pair_before_irrefl p = ground (arith, first.before_irrefl p.0, second.before_irrefl p.1)

  pub pair_before_trans :
      (p q r : A × B) → pair_before p q ≡ true → pair_before q r ≡ true → pair_before p r ≡ true
  unfolding pair_before
  pair_before_trans p q r h k =
      ground (arith, first.before_trans p.0 q.0 r.0, second.before_trans p.1 q.1 r.1)

  pub pair_before_total :
      (p q : A × B) → p ≢ q → (pair_before p q ≡ true) ⊎ (pair_before q p ≡ true)
  unfolding pair_before
  pair_before_total (a, b) (c, d) ne = elim (dec a c) [
    | yes same ↦
        elim (second.before_total b d
          (λ e. ne (ap (λ (x : A). (x, b)) same ∙ ap (λ (y : B). (c, y)) e))) [
            | inl h ↦ ground (arith, first.before_irrefl a, first.before_irrefl c)
            | inr h ↦ ground (arith, first.before_irrefl a, first.before_irrefl c)
          ]
    | no other ↦ ground (arith, first.before_total a c other)
  ]

  abbrev pub pair_order : StrictOrder (A × B)
  pair_order = record {
    before = pair_before;
    before_irrefl = pair_before_irrefl;
    before_trans = pair_before_trans;
    before_total = pair_before_total;
  }

abbrev pub numbers : StrictOrder ℕ
numbers = record {
  before = ltb;
  before_irrefl = λ a. ground arith;
  before_trans = λ a b c h k. ground arith;
  before_total = λ a b ne. ground arith;
}

abbrev pub parts_order : StrictOrder (ℕ × (List ℕ × List ℕ))
parts_order = pair_order ℕ_discrete numbers (pair_order Text-discrete text_order text_order)

abbrev pub parts : NodeKey → ℕ × (List ℕ × List ℕ)
parts k = (kind k, (token_of k, key_of k))

unfoldable pub node_of : ℕ × (List ℕ × List ℕ) → NodeKey
node_of (zero, (token, key)) = NodeKey.ambiguous token key
node_of (suc zero, (token, key)) = NodeKey.delivery key
node_of (suc (suc zero), (token, key)) = NodeKey.missing token
node_of (suc (suc (suc n)), (token, key)) = NodeKey.reference token

-- The parts determine the node.
pub node_of-parts : (k : NodeKey) → node_of (parts k) ≡ k
unfolding node_of
node_of-parts (NodeKey.ambiguous token key) = refl
node_of-parts (NodeKey.delivery key) = refl
node_of-parts (NodeKey.missing token) = refl
node_of-parts (NodeKey.reference token) = refl

abbrev pub node_order : StrictOrder NodeKey
node_order = record {
  before = λ j k. parts_order.before (parts j) (parts k);
  before_irrefl = λ k. parts_order.before_irrefl (parts k);
  before_trans = λ i j k. parts_order.before_trans (parts i) (parts j) (parts k);
  before_total = λ j k ne.
      parts_order.before_total (parts j) (parts k)
        (λ e. ne (sym (node_of-parts j) ∙ ap node_of e ∙ node_of-parts k));
}
