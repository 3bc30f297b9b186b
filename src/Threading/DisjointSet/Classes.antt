-- ===== src/Threading/DisjointSet/Classes.antt =====
-- The classes after any sequence of unions: those of the equivalence that the unions generate.
use supamail.Common.{
  ◌≡◌, refl, ap, sym, ◌∙◌, ◌↔◌, ◌⊎◌, inl, inr, true, some, List, [], ◌∷◌, arith, subst,
}
use mathlib.Core.Logic.{ite}
use supamail.Common.Keys.{In}
use supamail.Common.Order.{StrictOrder}
use supamail.Threading.DisjointSet.{Sets, empty_sets, find, union_all}
use supamail.Threading.DisjointSet.Roots.{
  Root, top, Root-of_Root, Root-is_Root, Root-unique, IsSets, Root-first, find_lem, Root-exists,
}
use supamail.Threading.DisjointSet.Unions.{Merges, union-Merges}

-- The least equivalence that holds a relation.
pub data Closure {K : Type 0} (E : K → K → Type 0) : K → K → Type 0 where
  base : {a b : K} → E a b → Closure E a b
  same : {a : K} → Closure E a a
  flip : {a b : K} → Closure E a b → Closure E b a
  chain : {a b c : K} → Closure E a b → Closure E b c → Closure E a c

module _ {K : Type 0} where
  -- The keys that the calls of `union` link, directly or not.
  abbrev pub Linked : List (K × K) → K → K → Type 0
  Linked ops = Closure (λ a b. In (a, b) ops)

  abbrev pub Same : Sets K → K → K → Type 0
  Same s a b = (r : K) × Root s r a × Root s r b

  pub Closure-bind :
      (E F : K → K → Type 0) (a b : K)
      → ((x y : K) → E x y → Closure F x y)
      → Closure E a b
      → Closure F a b
  Closure-bind E F a b f (base e) = f a b e
  Closure-bind E F a b f same = same
  Closure-bind E F a b f (flip h) = flip (Closure-bind E F b a f h)
  Closure-bind E F a b f (chain {b = m} h k) =
      chain (Closure-bind E F a m f h) (Closure-bind E F m b f k)

module _ {K : Type 0} (o : StrictOrder K) (dec : Discrete K) where
  -- One class before, or a union.
  abbrev pub Extended : Sets K → List (K × K) → K → K → Type 0
  Extended s ops x y = Same s x y ⊎ In (x, y) ops

  Same-of_Closure : (s : Sets K) (a b : K) → IsSets o s → Closure (Extended s []) a b → Same s a b
  Same-of_Closure s a b v (base (inl h)) = h
  Same-of_Closure s a b v (base (inr h)) = absurd h
  Same-of_Closure s a b v same = let (r, h) = Root-exists o dec s a v in (r, h, h)
  Same-of_Closure s a b v (flip h) = let (r, x, y) = Same-of_Closure s b a v h in (r, y, x)
  Same-of_Closure s a b v (chain {b = m} h k) =
      let (r, x, y) = Same-of_Closure s a m v h in
      let (q, z, w) = Same-of_Closure s m b v k in
      (r, x, subst (λ p. Root s p b) (Root-unique s q r m z y) w)

  -- Two keys whose roots are renamed alike were in one class, or in the two that are merged.
  Closure_of_renamed :
      (s : Sets K) (ops : List (K × K)) (w l i j qx qy x y : K)
      → Root s w i
      → Root s l j
      → Closure (Extended s ops) i j
      → ite (dec qx l) w qx ≡ ite (dec qy l) w qy
      → Root s qx x
      → Root s qy y
      → Closure (Extended s ops) x y
  Closure_of_renamed s ops w l i j qx qy x y hi hj edge e hx hy = elim (dec qx l) [
    | yes lost_x ↦ elim (dec qy l) [
      | yes lost_y ↦ base (inl (l, at qx l x lost_x hx, at qy l y lost_y hy))
      | no kept_y ↦
          let won : qy ≡ w = ground arith in
          chain (base (inl (l, at qx l x lost_x hx, hj)))
            (chain (flip edge) (base (inl (w, hi, at qy w y won hy))))
    ]
    | no kept_x ↦ elim (dec qy l) [
      | yes lost_y ↦
          let won : qx ≡ w = ground arith in
          chain (base (inl (w, at qx w x won hx, hi)))
            (chain edge (base (inl (l, hj, at qy l y lost_y hy))))
      | no kept_y ↦ let alike : qx ≡ qy = ground arith in base (inl (qy, at qx qy x alike hx, hy))
    ]
  ]
    where
      at : (q r k : K) → q ≡ r → Root s q k → Root s r k
      at q r k h root = subst (λ p. Root s p k) h root

  module _ (s t : Sets K) (a b : K) (v : IsSets o s) (m : Merges o dec s t a b) where
    Same-after : (x y : K) → Same s x y → Same t x y
    Same-after x y (r, hx, hy) = (_, m.renames r x hx, m.renames r y hy)

    Same-merged : Same t a b
    Same-merged = elim m.merged [
      | inl (x, y) ↦ (m.winner, won a x, lost b y)
      | inr (x, y) ↦ (m.winner, lost a y, won b x)
    ]
      where
        won : (k : K) → Root s m.winner k → Root t m.winner k
        won k h =
            let e : ite (dec m.winner m.loser) m.winner m.winner ≡ m.winner = ground arith in
            subst (λ p. Root t p k) e (m.renames m.winner k h)

        lost : (k : K) → Root s m.loser k → Root t m.winner k
        lost k h =
            let e : ite (dec m.loser m.loser) m.winner m.loser ≡ m.winner = ground arith in
            subst (λ p. Root t p k) e (m.renames m.loser k h)

    Closure_of_Same :
        (ops : List (K × K)) (x y : K) → Same t x y → Closure (Extended s ((a, b) ∷ ops)) x y
    Closure_of_Same ops x y (r, hx, hy) =
        let (qx, sx) = Root-exists o dec s x v in
        let (qy, sy) = Root-exists o dec s y v in
        let e =
          Root-unique t _ r x (m.renames qx x sx) hx
          ∙ sym (Root-unique t _ r y (m.renames qy y sy) hy) in
        elim m.merged [
          | inl (ra, rb) ↦
              Closure_of_renamed s ((a, b) ∷ ops) m.winner m.loser a b qx qy x y ra rb
                (base (inr (inl refl))) e sx sy
          | inr (rb, ra) ↦
              Closure_of_renamed s ((a, b) ∷ ops) m.winner m.loser b a qx qy x y rb ra
                (flip (base (inr (inl refl)))) e sx sy
        ]

  -- The classes after a sequence of unions.
  pub union_all-Same :
      (ops : List (K × K)) (s : Sets K)
      → IsSets o s
      → (t : Sets K) × (union_all dec o ops s ≡ some t)
        × IsSets o t
        × ((x y : K) → Same t x y ↔ Closure (Extended s ops) x y)
  unfolding union_all
  union_all-Same [] s v = (s, refl, v, λ x y. (λ h. base (inl h), Same-of_Closure s x y v))
  union_all-Same ((a, b) ∷ ops) s v =
      let (u, eu, m) = union-Merges o dec s a b v in
      let (t, et, vt, iff) = union_all-Same ops u m.sets in
      (
        t,
        rw eu et,
        vt,
        λ x y. (
          λ h. Closure-bind _ _ x y (unwind u m) ((iff x y).0 h),
          λ h. (iff x y).1 (Closure-bind _ _ x y (wind u m) h),
        ),
      )
    where
      unwind :
          (u : Sets K)
          → Merges o dec s u a b
          → (x y : K) → Extended u ops x y
          → Closure (Extended s ((a, b) ∷ ops)) x y
      unwind u m x y (inl h) = Closure_of_Same s u a b v m ops x y h
      unwind u m x y (inr h) = base (inr (inr h))

      wind :
          (u : Sets K)
          → Merges o dec s u a b
          → (x y : K) → Extended s ((a, b) ∷ ops) x y
          → Closure (Extended u ops) x y
      wind u m x y (inl h) = base (inl (Same-after s u a b v m x y h))
      wind u m x y (inr (inl e)) = base (
          inl (
            let ex : x ≡ a = ap (λ (p : K × K). p.0) e in
            let ey : y ≡ b = ap (λ (p : K × K). p.1) e in
            subst (λ k. Same u k y) (sym ex)
              (subst (λ k. Same u a k) (sym ey) (Same-merged s u a b v m))))
      wind u m x y (inr (inr h)) = base (inr h)

  pub empty_sets-IsSets : IsSets o empty_sets
  empty_sets-IsSets = record { known = λ k p e. cc; present = λ k m e. m; ordered = λ k p e. cc }

  Same-of_empty : (x y : K) → Same empty_sets x y → x ≡ y
  Same-of_empty x y (r, hx, hy) =
      Root-of_Root empty_sets r x refl hx ∙ sym (Root-of_Root empty_sets r y refl hy)

  Linked-of_empty :
      (ops : List (K × K)) (x y : K) → Closure (Extended empty_sets ops) x y ↔ Linked ops x y
  Linked-of_empty ops x y = (
    Closure-bind _ _ x y (λ k j h. elim h [
      | inl one ↦ subst (Linked ops k) (Same-of_empty k j one) same
      | inr op ↦ base op
    ]),
    Closure-bind _ _ x y (λ k j h. base (inr h)),
  )

  -- Any sequence of `union` calls on a new `DisjointSet` ends, and so do two calls of `find` after it.
  -- They return one root exactly if the two keys are equal or linked by the unions: the classes are
  -- those of the least equivalence that holds every pair that was united.
  pub find_eq_iff :
      (ops : List (K × K)) (a b : K)
      → (t : Sets K) × (u : Sets K) × (w : Sets K) × (ra : K) × (rb : K) × (union_all dec o ops
            empty_sets
          ≡ some t)
        × (find dec a t ≡ some (ra, u))
        × (find dec b u ≡ some (rb, w))
        × ((ra ≡ rb) ↔ Linked ops a b)
  find_eq_iff ops a b =
      let (t, et, vt, iff) = union_all-Same ops empty_sets empty_sets-IsSets in
      let (ra, u, eu, vu, ua, keep_u, _, _) = find_lem o dec t a vt in
      let (rb, w, ew, vw, wb, keep_w, _, _) = find_lem o dec u b vu in
      let (qa, ta) = Root-exists o dec t a vt in
      let (qb, tb) = Root-exists o dec t b vt in
      let same_a = Root-unique u qa ra a (keep_u qa a ta) ua in
      let same_b = Root-unique w qb rb b (keep_w qb b (keep_u qb b tb)) wb in
      (
        t,
        u,
        w,
        ra,
        rb,
        et,
        eu,
        ew,
        (
          λ e.
              (Linked-of_empty ops a b).0
                ((iff a b).0 (qb, subst (λ r. Root t r a) (same_a ∙ e ∙ sym same_b) ta, tb)),
          λ h.
              let (r, x, y) = (iff a b).1 ((Linked-of_empty ops a b).1 h) in
              sym same_a ∙ Root-unique t qa r a ta x ∙ Root-unique t r qb b y tb ∙ same_b,
        ),
      )

  -- After any sequence of `union` calls on a new `DisjointSet`, what `find` returns is the first key
  -- of its class in the order of `binaryCompare`, whatever the order of the calls.
  find-first :
      (ops : List (K × K)) (t u : Sets K) (a r : K)
      → union_all dec o ops empty_sets ≡ some t
      → find dec a t ≡ some (r, u)
      → Linked ops r a × ((k : K) → Linked ops k a → (k ≡ r) ⊎ (o.before r k ≡ true))
  find-first ops t u a r et eu =
      let (s, es, vs, iff) = union_all-Same ops empty_sets empty_sets-IsSets in
      let same_t : t ≡ s = ground arith in
      let eu' = subst (λ x. find dec a x ≡ some (r, u)) same_t eu in
      let (q, w, ew, vw, wa, keep, _, _) = find_lem o dec s a vs in
      let (p, pa) = Root-exists o dec s a vs in
      let found : q ≡ r = ground arith in
      let root : Root s r a =
        subst (λ x. Root s x a) (Root-unique w p q a (keep p a pa) wa ∙ found) pa in
      (
        (Linked-of_empty ops r a).0 ((iff r a).0 (r, top refl (Root-is_Root s r a root), root)),
        λ k h.
            let (x, hk, ha) = (iff k a).1 ((Linked-of_empty ops k a).1 h) in
            Root-first o s r k vs (subst (λ y. Root s y k) (Root-unique s x r a ha root) hk),
      )
