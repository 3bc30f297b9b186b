-- ===== src/Threading/DisjointSet/Unions.antt =====
-- `union` gives the keys of two classes one root, the first of the two, and changes nothing else.
use mathlib.Core.Logic.{ite}
use supamail.Common.{◌≡◌, refl, sym, ◌∙◌, ◌≢◌, ◌⊎◌, inl, inr, true, some, arith, subst}
use supamail.Common.Keys.{In}
use supamail.Common.Order.{StrictOrder}
use supamail.Threading.DisjointSet.{Sets, get_parent, set_parent, link_roots, union}
use supamail.Threading.DisjointSet.Roots.{
  Root, top, up, Root-is_Root, Root-of_Root, Root-unique, IsSets, set_parent-IsSets, find_lem,
  Root-exists,
}

module _ {K : Type 0} (o : StrictOrder K) (dec : Discrete K) where
  abbrev renamed : K → K → K → K
  renamed winner loser q = ite (dec q loser) winner q

  module _ (s : Sets K) (w l : K) (hw : get_parent s w ≡ w) (hl : get_parent s l ≡ l)
      (ne : w ≢ l) where
    parent_of_loser : get_parent (set_parent dec l w s) l ≡ w
    unfolding set_parent
    parent_of_loser = ground arith

    parent_of_other : (k : K) → ¬ (k ≡ l) → get_parent (set_parent dec l w s) k ≡ get_parent s k
    unfolding set_parent
    parent_of_other k other = ground arith

    loser_renamed : (q k : K) → k ≡ l → Root s q k → Root (set_parent dec l w s) (renamed w l q) k
    loser_renamed q k same root =
        let q_lost : l ≡ q = Root-of_Root s q l hl (subst (Root s q) same root) in
        let to_winner : w ≡ renamed w l q = ground arith in
        subst (λ x. Root (set_parent dec l w s) (renamed w l q) x) (sym same)
          (subst (λ x. Root (set_parent dec l w s) x l) to_winner
            (up w parent_of_loser (top refl (parent_of_other w ne ∙ hw))))

    -- Linking a root below another one renames the roots of its keys.
    set_parent-renames : (q k : K) → Root s q k → Root (set_parent dec l w s) (renamed w l q) k
    set_parent-renames q k (top e h) = elim (dec k l) [
      | yes same ↦ loser_renamed q k same (top e h)
      | no other ↦
          let kept : q ≡ renamed w l q = ground arith in
          subst (λ x. Root (set_parent dec l w s) x k) kept
            (top e (parent_of_other q (λ lost. other (e ∙ lost)) ∙ h))
    ]
    set_parent-renames q k (up p e t) = elim (dec k l) [
      | yes same ↦ loser_renamed q k same (up p e t)
      | no other ↦ up p (parent_of_other k other ∙ e) (set_parent-renames q p t)
    ]

  -- What `union` does to the sets.
  pub record Merges (s t : Sets K) (a b : K) : Type 0 where
    pub sets : IsSets o t
    pub winner : K
    pub loser : K
    pub renames : (q k : K) → Root s q k → Root t (renamed winner loser q) k
    pub merged : (Root s winner a × Root s loser b) ⊎ (Root s winner b × Root s loser a)

  module _ (s : Sets K) (ra rb : K) where
    link_roots_same : ra ≡ rb → link_roots dec o ra rb s ≡ s
    unfolding link_roots
    link_roots_same same = ground arith

    link_roots_left :
        ra ≢ rb → o.before ra rb ≡ true → link_roots dec o ra rb s ≡ set_parent dec rb ra s
    unfolding link_roots
    link_roots_left other h = ground arith

    link_roots_right :
        ra ≢ rb → o.before rb ra ≡ true → link_roots dec o ra rb s ≡ set_parent dec ra rb s
    unfolding link_roots
    link_roots_right other h = ground (arith, o.before_trans ra rb ra, o.before_irrefl ra)

  link_roots-Merges :
      (s : Sets K) (a b ra rb : K)
      → IsSets o s
      → In ra s.keys
      → In rb s.keys
      → Root s ra a
      → Root s rb b
      → Merges s (link_roots dec o ra rb s) a b
  link_roots-Merges s a b ra rb v ma mb ta tb = elim (dec ra rb) [
    | yes same ↦
        subst (λ u. Merges s u a b) (sym (link_roots_same s ra rb same))
          (record {
            sets = v;
            winner = ra;
            loser = rb;
            renames = λ q k h.
                let kept : q ≡ renamed ra rb q = ground arith in subst (λ x. Root s x k) kept h;
            merged = inl (ta, tb);
          })
    | no other ↦ elim (o.before_total ra rb other) [
      | inl h ↦
          subst (λ u. Merges s u a b) (sym (link_roots_left s ra rb other h))
            (record {
              sets = set_parent-IsSets o dec s rb ra v mb ma (inr h);
              winner = ra;
              loser = rb;
              renames =
                  set_parent-renames s ra rb (Root-is_Root s ra a ta) (Root-is_Root s rb b tb)
                    other;
              merged = inl (ta, tb);
            })
      | inr h ↦
          subst (λ u. Merges s u a b) (sym (link_roots_right s ra rb other h))
            (record {
              sets = set_parent-IsSets o dec s ra rb v ma mb (inr h);
              winner = rb;
              loser = ra;
              renames =
                  set_parent-renames s rb ra (Root-is_Root s rb b tb) (Root-is_Root s ra a ta)
                    (λ e. other (sym e));
              merged = inr (tb, ta);
            })
    ]
  ]

  -- Steps that move no root do not matter for a later union.
  Merges-after :
      (s u t : Sets K) (a b : K)
      → IsSets o s
      → ((q k : K) → Root s q k → Root u q k)
      → Merges u t a b
      → Merges s t a b
  Merges-after s u t a b v keep m = record {
    sets = m.sets;
    winner = m.winner;
    loser = m.loser;
    renames = λ q k h. m.renames q k (keep q k h);
    merged = elim m.merged [
      | inl (x, y) ↦ inl (back a m.winner x, back b m.loser y)
      | inr (x, y) ↦ inr (back b m.winner x, back a m.loser y)
    ];
  }
    where
      back : (k r : K) → Root u r k → Root s r k
      back k r h =
          let (q, own) = Root-exists o dec s k v in
          subst (λ x. Root s x k) (Root-unique u q r k (keep q k own) h) own

  -- `union` ends: the two keys then have one root, that of the other keys of their classes, and the
  -- keys of every other class keep theirs.
  pub union-Merges :
      (s : Sets K) (a b : K)
      → IsSets o s
      → (t : Sets K) × (union dec o a b s ≡ some t) × Merges s t a b
  unfolding union
  union-Merges s a b v =
      let (ra, t, et, vt, ta, keep_t, known_t, keys_t) = find_lem o dec s a v in
      let (rb, u, eu, vu, ub, keep_u, known_u, keys_u) = find_lem o dec t b vt in
      (
        link_roots dec o ra rb u,
        rw (et, eu),
        Merges-after s u (link_roots dec o ra rb u) a b v (λ q k h. keep_u q k (keep_t q k h))
            (link_roots-Merges u a b ra rb vu (keys_u ra known_t) known_u (keep_u ra a ta) ub),
      )
