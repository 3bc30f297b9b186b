-- ===== src/SyncLimits/Batching.antt =====
-- What the loop variables of the splitters mean, whatever the limits: counters count, and the
-- batches hold what was read, in order.
use supamail.Common.{
  ℕ, ◌+◌, ◌-◌, ◌≤◌, ◌≡◌, refl, ap, sym, ◌∙◌, ◌⊎◌, inl, inr, Bool, true, false, List, [], ◌∷◌, ◌++◌,
  append-nil, append_assoc, arith, length, length-append, flatten, flatten-append, sum_of,
  sum_of-append, All, All-append, Outcome, ok, ◌>>=◌, >>=-eq-ok, ok-injective, subst, ◌↔◌,
}
use mathlib.Core.Bool.{false≢true}
use supamail.SyncLimits.{
  LimitError, Footprint, Split, empty_split, is_open, count_total, close_batch, push_item, place,
  finish, split_loop,
}

module _ {A : Type 0} (bytes items : A → ℕ) where
  -- The serialized length of an array: brackets, items and the commas between them.
  abbrev pub array_bytes : List A → ℕ
  array_bytes xs = 2 + sum_of bytes xs + (length xs - 1)

  abbrev pub footprint_of : A → Footprint
  footprint_of x = record { bytes = bytes x; items = items x }

  is_open-cases : (batch : List A) → (batch ≡ []) ⊎ (is_open batch ≡ true)
  is_open-cases [] = inl refl
  is_open-cases (x ∷ xs) = inr (ground arith)

  module _ (P : List A → Type 0) where
    P_of_open : (batch : List A) → (batch ≡ []) ⊎ P batch → is_open batch ≡ true → P batch
    P_of_open batch (inl e) h = absurd (false≢true (sym (ap is_open e) ∙ h))
    P_of_open batch (inr p) h = p

    -- `seen` is what the batches hold, `counted` what the totals count; `P` is what a closed batch
    -- satisfies.
    pub record IsSplit (seen counted : List A) (s : Split A) : Type 0 where
      pub joined : flatten s.batches ++ s.batch ≡ seen
      pub closed : All P s.batches
      pub opened : (s.batch ≡ []) ⊎ P s.batch
      pub bytes_counted : s.batch_bytes ≡ array_bytes s.batch
      pub items_counted : s.batch_items ≡ sum_of items s.batch
      pub bytes_totalled : s.total_bytes ≡ 2 + sum_of bytes counted
      pub items_totalled : s.total_items ≡ sum_of items counted

    pub empty_split-IsSplit : IsSplit [] [] empty_split
    empty_split-IsSplit = ground arith

    pub count_total-IsSplit :
        (seen : List A) (x : A) (s : Split A)
        → IsSplit seen seen s
        → IsSplit seen (seen ++ x ∷ []) (count_total (footprint_of x) s)
    unfolding count_total
    count_total-IsSplit seen x s h = record {
      joined = h.joined;
      closed = h.closed;
      opened = h.opened;
      bytes_counted = h.bytes_counted;
      items_counted = h.items_counted;
      bytes_totalled = omega (arith, sum_of-append bytes seen (x ∷ []));
      items_totalled = omega (arith, sum_of-append items seen (x ∷ []));
    }

    close_batch-IsSplit :
        (seen counted : List A) (s : Split A)
        → IsSplit seen counted s
        → P s.batch
        → IsSplit seen counted (close_batch s)
    unfolding close_batch
    close_batch-IsSplit seen counted s h p = record {
      joined = simp (append-nil, flatten-append) h.joined;
      closed = All-append P s.batches (s.batch ∷ []) h.closed (p, tt);
      opened = inl refl;
      bytes_counted = refl;
      items_counted = refl;
      bytes_totalled = h.bytes_totalled;
      items_totalled = h.items_totalled;
    }

    push_item-IsSplit :
        (seen counted : List A) (x : A) (s : Split A)
        → IsSplit seen counted s
        → P (s.batch ++ x ∷ [])
        → IsSplit (seen ++ x ∷ []) counted (push_item x (footprint_of x) s)
    unfolding push_item
    push_item-IsSplit seen counted x s h p = record {
      joined =
          sym (append_assoc (flatten s.batches) s.batch (x ∷ [])) ∙ ap (λ l. l ++ x ∷ []) h.joined;
      closed = h.closed;
      opened = inr p;
      bytes_counted = ground (
        arith,
        sum_of-append bytes s.batch (x ∷ []),
        length-append s.batch (x ∷ []),
        h.bytes_counted,
      );
      items_counted = omega (arith, sum_of-append items s.batch (x ∷ []), h.items_counted);
      bytes_totalled = h.bytes_totalled;
      items_totalled = h.items_totalled;
    }

    -- The open batch is closed if the item would exceed a limit, and the item is placed.
    pub place-IsSplit :
        (exceeds : Bool) (seen counted : List A) (x : A) (s : Split A)
        → IsSplit seen counted s
        → P (x ∷ [])
        → (exceeds ≡ false → P s.batch → P (s.batch ++ x ∷ []))
        → IsSplit (seen ++ x ∷ []) counted (place exceeds x (footprint_of x) s)
    unfolding place
    place-IsSplit false seen counted x s h single grow =
        push_item-IsSplit seen counted x s h
          (elim h.opened [ inl e ↦ rw e single | inr p ↦ grow refl p ])
    place-IsSplit true seen counted x s h single grow = elim (is_open-cases s.batch) [
      | inl e ↦ rw (ap is_open e) (push_item-IsSplit seen counted x s h (rw e single))
      | inr open_batch ↦ rw open_batch (
          push_item-IsSplit seen counted x (close_batch s)
            (close_batch-IsSplit seen counted s h (P_of_open s.batch h.opened open_batch))
            (unfold close_batch in single))
    ]

    pub finish-IsSplit :
        (seen counted : List A) (s : Split A)
        → IsSplit seen counted s
        → (flatten (finish s) ≡ seen) × All P (finish s)
    unfolding finish
    finish-IsSplit seen counted s h = elim (is_open-cases s.batch) [
      | inl e ↦
          rw (ap is_open e)
            (sym (append-nil _) ∙ ap (λ l. flatten s.batches ++ l) (sym e) ∙ h.joined, h.closed)
      | inr open_batch ↦ rw open_batch (
        simp (flatten-append, append-nil) h.joined,
        All-append P s.batches (s.batch ∷ []) h.closed (P_of_open s.batch h.opened open_batch, tt),
      )
    ]

    module _ (Good : A → Type 0) (max_bytes max_items : ℕ) where
      -- The aggregate limits, brackets included and commas not.
      abbrev pub Fits : List A → Type 0
      Fits xs = (2 + sum_of bytes xs ≤ max_bytes) × (sum_of items xs ≤ max_items)

      -- A step succeeds exactly on an item that is good and leaves the totals within the limits, and
      -- it keeps what the loop variables mean.
      pub record IsStep (step : A → Split A → Outcome LimitError (Split A)) : Type 0 where
        pub keeps :
            (seen : List A) (x : A) (s t : Split A)
            → IsSplit seen seen s
            → step x s ≡ ok t
            → IsSplit (seen ++ x ∷ []) (seen ++ x ∷ []) t
        pub accepts :
            (seen : List A) (x : A) (s : Split A)
            → IsSplit seen seen s
            → Good x
            → Fits (seen ++ x ∷ [])
            → (t : Split A) × (step x s ≡ ok t)
        pub requires :
            (seen : List A) (x : A) (s t : Split A)
            → IsSplit seen seen s
            → step x s ≡ ok t
            → Good x × Fits (seen ++ x ∷ [])

      Fits-prefix : (xs ys : List A) → Fits (xs ++ ys) → Fits xs
      Fits-prefix xs ys f = (
        omega (arith, sum_of-append bytes xs ys, f.0),
        omega (arith, sum_of-append items xs ys, f.1),
      )

      module _ (step : A → Split A → Outcome LimitError (Split A)) (law : IsStep step) where
        pub split_loop-IsSplit :
            (seen xs : List A) (s t : Split A)
            → IsSplit seen seen s
            → split_loop step xs s ≡ ok t
            → IsSplit (seen ++ xs) (seen ++ xs) t
        unfolding split_loop
        split_loop-IsSplit seen [] s t h e =
            rw append-nil (subst (λ u. IsSplit seen seen u) (ok-injective e) h)
        split_loop-IsSplit seen (x ∷ xs) s t h e =
            let (u, e₁, e₂) = >>=-eq-ok (step x s) (split_loop step xs) e in
            subst (λ l. IsSplit l l t) (append_assoc seen (x ∷ []) xs)
              (split_loop-IsSplit (seen ++ x ∷ []) xs u t (law.keeps seen x s u h e₁) e₂)

        pub split_loop-Good :
            (seen xs : List A) (s t : Split A)
            → IsSplit seen seen s
            → Fits seen
            → split_loop step xs s ≡ ok t
            → All Good xs × Fits (seen ++ xs)
        unfolding split_loop
        split_loop-Good seen [] s t h f e = (tt, rw append-nil f)
        split_loop-Good seen (x ∷ xs) s t h f e =
            let (u, e₁, e₂) = >>=-eq-ok (step x s) (split_loop step xs) e in
            let (good, fits) = law.requires seen x s u h e₁ in
            let (goods, all_fit) =
              split_loop-Good (seen ++ x ∷ []) xs u t (law.keeps seen x s u h e₁) fits e₂ in
            ((good, goods), subst Fits (append_assoc seen (x ∷ []) xs) all_fit)

        pub split_loop_total :
            (seen xs : List A) (s : Split A)
            → IsSplit seen seen s
            → All Good xs
            → Fits (seen ++ xs)
            → (t : Split A) × (split_loop step xs s ≡ ok t)
        unfolding split_loop
        split_loop_total seen [] s h g f = (s, refl)
        split_loop_total seen (x ∷ xs) s h (good, goods) f =
            let f' : Fits ((seen ++ x ∷ []) ++ xs) =
              subst Fits (sym (append_assoc seen (x ∷ []) xs)) f in
            let (u, e₁) = law.accepts seen x s h good (Fits-prefix (seen ++ x ∷ []) xs f') in
            rw e₁ (split_loop_total (seen ++ x ∷ []) xs u (law.keeps seen x s u h e₁) goods f')

        abbrev pub run : List A → Outcome LimitError (List (List A))
        run xs = split_loop step xs empty_split >>= λ s. ok (finish s)

        pub run_sound :
            (xs : List A) (batches : List (List A))
            → run xs ≡ ok batches
            → (flatten batches ≡ xs) × All P batches
        run_sound xs batches e =
            let (t, e₁, e₂) = >>=-eq-ok (split_loop step xs empty_split) (λ s. ok (finish s)) e in
            subst (λ b. (flatten b ≡ xs) × All P b) (ok-injective e₂)
              (finish-IsSplit xs xs t
                (split_loop-IsSplit [] xs empty_split t empty_split-IsSplit e₁))

        pub run_iff :
            2 ≤ max_bytes
            → (xs : List A)
            → ((batches : List (List A)) × (run xs ≡ ok batches)) ↔ (All Good xs × Fits xs)
        run_iff room xs = (
          λ (batches, e).
              let (t, e₁, e₂) = >>=-eq-ok (split_loop step xs empty_split) (λ s. ok (finish s)) e in
              split_loop-Good [] xs empty_split t empty_split-IsSplit (room, omega arith) e₁,
          λ (good, fits).
              let (t, e) = split_loop_total [] xs empty_split empty_split-IsSplit good fits in
              (finish t, rw e),
        )
