-- ===== src/Threading/DisjointSet/Roots.antt =====
-- Roots and the walk to them: `find` ends, and compression moves no root.
use mathlib.Core.Logic.{ite}
use supamail.Common.{
  ℕ, zero, suc, ◌+◌, ◌≤◌, ◌<◌, ◌≡◌, refl, sym, ◌∙◌, ◌≢◌, ◌⊎◌, inl, inr, true, Option, none, some,
  List, [], ◌∷◌, arith, length, subst, if◌then◌else◌,
}
use supamail.Common.Keys.{In, In-append}
use supamail.Common.Order.{StrictOrder}
use supamail.Threading.DisjointSet.{Sets, get_parent, set_parent, add, find_root, compress, find}

-- `Root s r k`: the parents of `k` lead to `r`, which is its own parent.
pub data Root {K : Type 0} (s : Sets K) (r : K) : K → Type 0 where
  top : {k : K} → k ≡ r → get_parent s r ≡ r → Root s r k
  up : {k : K} (p : K) → get_parent s k ≡ p → Root s r p → Root s r k

module _ {K : Type 0} (s : Sets K) where
  pub Root-is_Root : (r k : K) → Root s r k → get_parent s r ≡ r
  Root-is_Root r k (top e h) = h
  Root-is_Root r k (up p e t) = Root-is_Root r p t

  pub Root-of_Root : (r k : K) → get_parent s k ≡ k → Root s r k → k ≡ r
  Root-of_Root r k h (top e _) = e
  Root-of_Root r k h (up p e t) =
      let same : p ≡ k = sym e ∙ h in
      sym same ∙ Root-of_Root r p (subst (λ x. get_parent s x ≡ x) (sym same) h) t

  -- A key has one root.
  pub Root-unique : (r q k : K) → Root s r k → Root s q k → r ≡ q
  Root-unique r q k (top e h) t = Root-of_Root q r h (subst (Root s q) e t)
  Root-unique r q k (up p e t) (top e' h') =
      sym (Root-of_Root r q h' (subst (Root s r) e' (up p e t)))
  Root-unique r q k (up p e t) (up p' e' t') =
      Root-unique r q p t (subst (Root s q) (sym e' ∙ e) t')

  Root-parent : (r k : K) → ¬ (k ≡ r) → Root s r k → Root s r (get_parent s k)
  Root-parent r k other (top e h) = absurd (other e)
  Root-parent r k other (up p e t) = subst (Root s r) (sym e) t

module _ {K : Type 0} (o : StrictOrder K) where
  pub record IsSets (s : Sets K) : Type 0 where
    pub known : (k p : K) → s.parents k ≡ some p → In k s.keys × In p s.keys
    pub present : (k : K) → In k s.keys → s.parents k ≢ none
    pub ordered : (k p : K) → s.parents k ≡ some p → (p ≡ k) ⊎ (o.before p k ≡ true)

  below : List K → K → ℕ
  below [] k = 0
  below (x ∷ xs) k = (if o.before x k then 1 else 0) + below xs k

  below-le : (xs : List K) (p k : K) → o.before p k ≡ true → below xs p ≤ below xs k
  unfolding below
  below-le [] p k h = omega arith
  below-le (x ∷ xs) p k h = ground (arith, below-le xs p k h, o.before_trans x p k)

  below-lt : (xs : List K) (p k : K) → In p xs → o.before p k ≡ true → below xs p < below xs k
  unfolding below
  below-lt [] p k m h = absurd m
  below-lt (x ∷ xs) p k (inl e) h =
      ground (arith, below-le xs p k h, o.before_trans x p k, o.before_irrefl p)
  below-lt (x ∷ xs) p k (inr m) h = ground (arith, below-lt xs p k m h, o.before_trans x p k)

  below-le-length : (xs : List K) (k : K) → below xs k ≤ length xs
  unfolding below
  below-le-length [] k = omega arith
  below-le-length (x ∷ xs) k = ground (arith, below-le-length xs k)

  pub get_parent-ordered :
      (s : Sets K) (k : K) → IsSets s → (get_parent s k ≡ k) ⊎ (o.before (get_parent s k) k ≡ true)
  get_parent-ordered s k v = by_parent (s.parents k) refl
    where
      by_parent :
          (q : Option K)
          → s.parents k ≡ q
          → (get_parent s k ≡ k) ⊎ (o.before (get_parent s k) k ≡ true)
      by_parent none e = inl (ground arith)
      by_parent (some p) e = ground (arith, v.ordered k p)

  get_parent-known : (s : Sets K) (k : K) → IsSets s → In k s.keys → In (get_parent s k) s.keys
  get_parent-known s k v m = by_parent (s.parents k) refl
    where
      by_parent : (q : Option K) → s.parents k ≡ q → In (get_parent s k) s.keys
      by_parent none e = absurd (v.present k m e)
      by_parent (some p) e = rw (e, get_parent) (v.known k p e).1

  -- A root is the first of the keys that lead to it.
  pub Root-first : (s : Sets K) (r k : K) → IsSets s → Root s r k → (k ≡ r) ⊎ (o.before r k ≡ true)
  Root-first s r k v (top e h) = inl e
  Root-first s r k v (up p e t) =
      ground (arith, get_parent-ordered s k v, Root-first s r p v t, o.before_trans r p k)

  Root-known : (s : Sets K) (r k : K) → IsSets s → In k s.keys → Root s r k → In r s.keys
  Root-known s r k v m (top e h) = subst (λ x. In x s.keys) e m
  Root-known s r k v m (up p e t) =
      Root-known s r p v (subst (λ x. In x s.keys) e (get_parent-known s k v m)) t

  module _ (dec : Discrete K) where
    find_root_lem :
        (fuel : ℕ) (s : Sets K) (k : K)
        → IsSets s
        → In k s.keys
        → below s.keys k < fuel
        → (r : K) × (find_root dec fuel s k ≡ some r) × Root s r k
    unfolding find_root
    find_root_lem zero s k v m h = absurd (omega arith)
    find_root_lem (suc fuel) s k v m h = elim (dec k (get_parent s k)) [
      | yes same ↦ (k, ground arith, top refl (sym same))
      | no other ↦ elim (get_parent-ordered s k v) [
        | inl e ↦ absurd (other (sym e))
        | inr b ↦
            let m' = get_parent-known s k v m in
            let fewer = below-lt s.keys (get_parent s k) k m' b in
            let (r, e, t) = find_root_lem fuel s (get_parent s k) v m' (omega (arith, fewer)) in
            (r, ground arith, up (get_parent s k) refl t)
      ]
    ]

    get_parent-set_parent :
        (s : Sets K) (c r j : K)
        → get_parent (set_parent dec c r s) j ≡ ite (dec j c) r (get_parent s j)
    unfolding set_parent
    get_parent-set_parent s c r j = ground arith

    pub set_parent-IsSets :
        (s : Sets K) (c r : K)
        → IsSets s
        → In c s.keys
        → In r s.keys
        → (r ≡ c) ⊎ (o.before r c ≡ true)
        → IsSets (set_parent dec c r s)
    unfolding set_parent
    set_parent-IsSets s c r v mc mr b = record {
      known = λ k p e. ground (arith, v.known k p);
      present = λ k m e. ground (arith, v.present k m);
      ordered = λ k p e. ground (arith, v.ordered k p);
    }

    -- Pointing a key at its root moves no key to another root.
    pub set_parent-Root :
        (s : Sets K) (c r q j : K) → Root s r c → Root s q j → Root (set_parent dec c r s) q j
    set_parent-Root s c r q j rc (top e h) = top e (
        ground (
          arith,
          get_parent-set_parent s c r q,
          λ (same : q ≡ c). Root-unique s r q c rc (top (sym same) h),
        ))
    set_parent-Root s c r q j rc (up p e t) = elim (dec j c) [
      | yes same ↦
          let one : q ≡ r = Root-unique s q r c (subst (Root s q) same (up p e t)) rc in
          subst (λ x. Root (set_parent dec c r s) x j) (sym one)
            (up r (ground (arith, get_parent-set_parent s c r j))
              (top refl (ground (arith, get_parent-set_parent s c r r, Root-is_Root s r c rc))))
      | no other ↦
          up p (ground (arith, get_parent-set_parent s c r j)) (set_parent-Root s c r q p rc t)
    ]

    -- What `find` may do to the sets: no key gets another root.
    pub record Keeps (s t : Sets K) : Type 0 where
      pub sets : IsSets t
      pub keys : t.keys ≡ s.keys
      pub roots : (r k : K) → Root s r k → Root t r k

    compress_lem :
        (fuel : ℕ) (s : Sets K) (r c : K)
        → IsSets s
        → In c s.keys
        → Root s r c
        → below s.keys c < fuel
        → (t : Sets K) × (compress dec fuel s r c ≡ some t) × Keeps s t
    unfolding compress set_parent
    compress_lem zero s r c v m rc h = absurd (omega arith)
    compress_lem (suc fuel) s r c v m rc h = elim (dec c r) [
      | yes same ↦ (s, ground arith, record { sets = v; keys = refl; roots = λ q k t. t })
      | no other ↦ elim (get_parent-ordered s c v) [
        | inl e ↦ absurd (other (Root-of_Root s r c e rc))
        | inr b ↦
            let mp = get_parent-known s c v m in
            let s' = set_parent dec c r s in
            let v' =
              set_parent-IsSets s c r v m (Root-known s r c v m rc)
                (ground (arith, Root-first s r c v rc)) in
            let fewer = below-lt s.keys (get_parent s c) c mp b in
            let rp = set_parent-Root s c r r (get_parent s c) rc (Root-parent s r c other rc) in
            let (t, e, keeps) =
              compress_lem fuel s' r (get_parent s c) v' mp rp (omega (arith, fewer)) in
            (
              t,
              ground arith,
              record {
                sets = keeps.sets;
                keys = keeps.keys;
                roots = λ q k h. keeps.roots q k (set_parent-Root s c r q k rc h);
              },
            )
      ]
    ]

    add-get_parent : (s : Sets K) (v k : K) → get_parent (add dec v s) k ≡ get_parent s k
    unfolding add
    add-get_parent s v k = ground arith

    add-Root : (s : Sets K) (v r k : K) → Root s r k → Root (add dec v s) r k
    add-Root s v r k (top e h) = top e (add-get_parent s v r ∙ h)
    add-Root s v r k (up p e t) = up p (add-get_parent s v k ∙ e) (add-Root s v r p t)

    pub add-IsSets : (s : Sets K) (v : K) → IsSets s → IsSets (add dec v s)
    unfolding add
    add-IsSets s v h = record {
      known = λ k p e.
          ground (arith, h.known k p, In-append k s.keys (v ∷ []), In-append p s.keys (v ∷ []));
      present = λ k m e. ground (arith, h.present k, In-append k s.keys (v ∷ []));
      ordered = λ k p e. ground (arith, h.ordered k p);
    }

    add-known : (s : Sets K) (v : K) → IsSets s → In v (add dec v s).keys
    unfolding add
    add-known s v h = by_parent (s.parents v) refl
      where
        by_parent : (q : Option K) → s.parents v ≡ q → In v (add dec v s).keys
        by_parent none e = rw (e, add) ((In-append v s.keys (v ∷ [])).1 (inr (inl refl)))
        by_parent (some p) e = rw (e, add) (h.known v p e).0

    add-keys : (s : Sets K) (v k : K) → In k s.keys → In k (add dec v s).keys
    unfolding add
    add-keys s v k m = ground (arith, In-append k s.keys (v ∷ []))

    -- `find` ends and returns the root; it adds the key if it is new, and moves no key to another
    -- root.
    pub find_lem :
        (s : Sets K) (v : K)
        → IsSets s
        → (r : K) × (t : Sets K) × (find dec v s ≡ some (r, t))
          × IsSets t
          × Root t r v
          × ((q k : K) → Root s q k → Root t q k)
          × In r t.keys
          × ((k : K) → In k s.keys → In k t.keys)
    unfolding find
    find_lem s v h =
        let a = add dec v s in
        let ha = add-IsSets s v h in
        let mv = add-known s v h in
        let mp = get_parent-known a v ha mv in
        let (r, e, rp) =
          find_root_lem (suc (length a.keys)) a (get_parent a v) ha mp
            (omega (arith, below-le-length a.keys (get_parent a v))) in
        let rv : Root a r v = up (get_parent a v) refl rp in
        let (t, e', keeps) =
          compress_lem (suc (length a.keys)) a r v ha mv rv
            (omega (arith, below-le-length a.keys v)) in
        (
          r,
          t,
          rw (e, e'),
          keeps.sets,
          keeps.roots r v rv,
          λ q k root. keeps.roots q k (add-Root s v q k root),
          subst (In r) (sym keeps.keys) (Root-known a r v ha mv rv),
          λ k m. subst (In k) (sym keeps.keys) (add-keys s v k m),
        )

    pub Root-exists : (s : Sets K) (k : K) → IsSets s → (r : K) × Root s r k
    Root-exists s k v = by_parent (s.parents k) refl
      where
        by_parent : (q : Option K) → s.parents k ≡ q → (r : K) × Root s r k
        by_parent none e = (k, top refl (ground arith))
        by_parent (some p) e =
            let m = (v.known k p e).0 in
            let (r, _, t) =
              find_root_lem (suc (length s.keys)) s k v m
                (omega (arith, below-le-length s.keys k)) in
            (r, t)
