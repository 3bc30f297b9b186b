-- ===== src/Threading/Conversations/Groups.antt =====
-- The groups of the provider's threads, and the members of one.
use supamail.Common.{
  ◌≡◌, refl, sym, ap, ◌∙◌, ◌↔◌, ◌≢◌, ◌⊎◌, inl, inr, Bool, some, List, [], ◌∷◌, ℕ, subst, arith,
  Option-cases, Bool-cases, All, if◌then◌else◌,
}
use supamail.Common.Keys.{In, In-append}
use supamail.Common.Text.{same_codes, same_codes_iff}
use supamail.Common.Order.{StrictOrder}
use supamail.Threading.Links.{Delivery, NodeKey, insert_by, sort_by}
use supamail.Threading.Links.Order.{DistinctBy}
use supamail.Threading.Conversations.{
  thread_of, Groups, push_group, group_delivery, provider_groups, put_member, put_members,
  key_before, members,
}

-- The group under a thread.
group_of : Groups → List ℕ → List Delivery
group_of [] thread = []
group_of ((other, ds) ∷ groups) thread =
    let rest = group_of groups thread in if same_codes other thread then ds else rest

push_group-In :
    (thread : List ℕ) (d : Delivery) (groups : Groups) (other : List ℕ) (e : Delivery)
    → In e (group_of (push_group thread d groups) other)
      ↔ (In e (group_of groups other) ⊎ ((other ≡ thread) × (e ≡ d)))
unfolding push_group group_of
push_group-In thread d [] other e = ground (arith, same_codes_iff thread other)
push_group-In thread d ((first, ds) ∷ groups) other e = ground (
  arith,
  same_codes_iff first thread,
  same_codes_iff first other,
  In-append e ds (d ∷ []),
  push_group-In thread d groups other e,
)

module _ (source : List Delivery) where
  -- Every member of a group is one of these deliveries, with the group's thread.
  AllThreads : Groups → Type 0
  AllThreads [] = Unit
  AllThreads ((thread, ds) ∷ groups) =
      ((d : Delivery) → In d ds → In d source × (thread_of d ≡ some thread)) × AllThreads groups

  push_group-AllThreads :
      (thread : List ℕ) (d : Delivery) (groups : Groups)
      → In d source
      → thread_of d ≡ some thread
      → AllThreads groups
      → AllThreads (push_group thread d groups)
  unfolding push_group AllThreads
  push_group-AllThreads thread d [] here own h = (
    λ e i. elim i [
      | inl same ↦ (subst (λ x. In x source) (sym same) here, ap thread_of same ∙ own)
      | inr more ↦ absurd more
    ],
    tt,
  )
  push_group-AllThreads thread d ((first, ds) ∷ groups) here own (h, hs) =
      elim (Bool-cases (same_codes first thread)) [
        | inl found ↦
            rw (found, push_group)
              (
                λ e i. elim ((In-append e ds (d ∷ [])).0 i) [
                  | inl before ↦ h e before
                  | inr (inl same) ↦ (
                    subst (λ x. In x source) (sym same) here,
                    ap thread_of same ∙ own ∙ ap some (sym ((same_codes_iff first thread).0 found)),
                  )
                  | inr (inr more) ↦ absurd more
                ],
                hs,
              )
        | inr other ↦ rw (other, push_group) (h, push_group-AllThreads thread d groups here own hs)
      ]

  provider_groups_lem :
      (ds : List Delivery) (groups : Groups)
      → ((y : Delivery) → In y ds → In y source)
      → AllThreads groups
      → AllThreads (provider_groups ds groups)
        × ((thread : List ℕ) (e : Delivery)
            → In e (group_of (provider_groups ds groups) thread)
              ↔ (In e (group_of groups thread) ⊎ (In e ds × (thread_of e ≡ some thread))))
  unfolding provider_groups group_delivery
  provider_groups_lem [] groups from h = (h, λ thread e. ground arith)
  provider_groups_lem (d ∷ ds) groups from h = elim (Option-cases (thread_of d)) [
    | inl missing ↦
        let (all, iff) = provider_groups_lem ds groups (λ y i. from y (inr i)) h in
        rw (missing, group_delivery)
          (
            all,
            λ thread e. ground (arith, iff thread e, λ (same : e ≡ d). ap thread_of same ∙ missing),
          )
    | inr (own, present) ↦
        let pushed = push_group-AllThreads own d groups (from d (inl refl)) present h in
        let (all, iff) =
          provider_groups_lem ds (push_group own d groups) (λ y i. from y (inr i)) pushed in
        rw (present, group_delivery)
          (
            all,
            λ thread e. ground (
              arith,
              iff thread e,
              push_group-In own d groups thread e,
              λ (same : e ≡ d). ap thread_of same ∙ present,
            ),
          )
  ]

-- Both deliveries are in one group.
abbrev pub Paired : Groups → Delivery → Delivery → Type 0
Paired [] a b = ⊥
Paired ((thread, ds) ∷ groups) a b = (In a ds × In b ds) ⊎ Paired groups a b

Paired-of_group :
    (groups : Groups) (thread : List ℕ) (a b : Delivery)
    → In a (group_of groups thread)
    → In b (group_of groups thread)
    → Paired groups a b
unfolding group_of
Paired-of_group [] thread a b i j = i
Paired-of_group ((other, ds) ∷ groups) thread a b i j =
    ground (arith, Paired-of_group groups thread a b)

-- A thread that two deliveries share.
abbrev pub SameThread : Delivery → Delivery → Type 0
SameThread a b = (thread : List ℕ) × (thread_of a ≡ some thread) × (thread_of b ≡ some thread)

-- Two of these deliveries with one thread of the provider.
abbrev pub Shared : List Delivery → Delivery → Delivery → Type 0
Shared deliveries a b = In a deliveries × In b deliveries × SameThread a b

Paired-AllThreads :
    (source : List Delivery) (groups : Groups) (a b : Delivery)
    → AllThreads source groups
    → Paired groups a b
    → In a source × In b source × SameThread a b
unfolding AllThreads
Paired-AllThreads source [] a b h p = absurd p
Paired-AllThreads source ((thread, ds) ∷ groups) a b (h, hs) (inl (i, j)) =
    ((h a i).0, (h b j).0, (thread, (h a i).1, (h b j).1))
Paired-AllThreads source ((thread, ds) ∷ groups) a b (h, hs) (inr p) =
    Paired-AllThreads source groups a b hs p

insert_by-In :
    (precedes : Delivery → Delivery → Bool) (d x : Delivery) (es : List Delivery)
    → In x (insert_by precedes d es) ↔ ((x ≡ d) ⊎ In x es)
unfolding insert_by
insert_by-In precedes d x [] = (λ i. i, λ i. i)
insert_by-In precedes d x (e ∷ es) = ground (arith, insert_by-In precedes d x es)

sort_by-In :
    (precedes : Delivery → Delivery → Bool) (x : Delivery) (ds : List Delivery)
    → In x (sort_by precedes ds) ↔ In x ds
unfolding sort_by
sort_by-In precedes x [] = (λ i. i, λ i. i)
sort_by-In precedes x (d ∷ ds) =
    ground (arith, insert_by-In precedes d x (sort_by precedes ds), sort_by-In precedes x ds)

put_member-In :
    (d x : Delivery) (es : List Delivery)
    → (In x (put_member d es) → (x ≡ d) ⊎ In x es)
      × ((x ≡ d) → In x (put_member d es))
      × (In x es → In x (put_member d es) ⊎ (x.key ≡ d.key))
unfolding put_member
put_member-In d x [] = (λ i. i, λ i. inl i, λ i. absurd i)
put_member-In d x (e ∷ es) = ground (arith, same_codes_iff e.key d.key, put_member-In d x es)

All-In : (P : Delivery → Type 0) (ds : List Delivery) (d : Delivery) → All P ds → In d ds → P d
All-In P [] d h i = absurd i
All-In P (e ∷ ds) d (p, h) (inl same) = subst P (sym same) p
All-In P (e ∷ ds) d (p, h) (inr i) = All-In P ds d h i

-- Deliveries with one key are one delivery.
Distinct-unique :
    (ds : List Delivery) (a b : Delivery)
    → DistinctBy (λ d. d.key) ds
    → In a ds
    → In b ds
    → a.key ≡ b.key
    → a ≡ b
Distinct-unique [] a b n i j same = absurd i
Distinct-unique (d ∷ ds) a b (n, ns) (inl p) (inl q) same = p ∙ sym q
Distinct-unique (d ∷ ds) a b (n, ns) (inl p) (inr j) same =
    absurd (All-In (λ e. d.key ≢ e.key) ds b n j (ap (λ (x : Delivery). x.key) (sym p) ∙ same))
Distinct-unique (d ∷ ds) a b (n, ns) (inr i) (inl q) same =
    absurd (All-In (λ e. d.key ≢ e.key) ds a n i (ap (λ (x : Delivery). x.key) (sym q) ∙ sym same))
Distinct-unique (d ∷ ds) a b (n, ns) (inr i) (inr j) same = Distinct-unique ds a b ns i j same

-- The groups pair two deliveries exactly if they share a thread.
pub provider_groups-Paired :
    (ds : List Delivery) (a b : Delivery)
    → Paired (provider_groups ds []) a b ↔ (In a ds × In b ds × SameThread a b)
unfolding AllThreads
provider_groups-Paired ds a b =
    let (all, iff) = provider_groups_lem ds ds [] (λ y i. i) tt in
    (
      Paired-AllThreads ds (provider_groups ds []) a b all,
      λ h.
          let (i, j, shared) = h in
          let (thread, own, other) = shared in
          Paired-of_group (provider_groups ds []) thread a b ((iff thread a).1 (inr (i, own)))
            ((iff thread b).1 (inr (j, other))),
    )

module _ (deliveries : List Delivery) (distinct : DistinctBy (λ d. d.key) deliveries) where
  put_member-members :
      (d x : Delivery) (es : List Delivery)
      → In d deliveries
      → ((y : Delivery) → In y es → In y deliveries)
      → In x (put_member d es) ↔ ((x ≡ d) ⊎ In x es)
  put_member-members d x es i all =
      let (to, own, keeps) = put_member-In d x es in
      (
        to,
        λ h. elim h [
          | inl same ↦ own same
          | inr old ↦ elim (keeps old) [
            | inl kept ↦ kept
            | inr same ↦ own (Distinct-unique deliveries x d distinct (all x old) i same)
          ]
        ],
      )

  put_members-In :
      (ds es : List Delivery)
      → ((y : Delivery) → In y ds → In y deliveries)
      → ((y : Delivery) → In y es → In y deliveries)
      → (x : Delivery) → In x (put_members ds es) ↔ (In x ds ⊎ In x es)
  unfolding put_members
  put_members-In [] es all_ds all_es x = ground arith
  put_members-In (d ∷ ds) es all_ds all_es x =
      let one = put_member-members d x es (all_ds d (inl refl)) all_es in
      let more =
        put_members-In ds (put_member d es) (λ y i. all_ds y (inr i))
          (λ y i. elim ((put_member-In d y es).0 i) [
            | inl same ↦ subst (λ z. In z deliveries) (sym same) (all_ds d (inl refl))
            | inr old ↦ all_es y old
          ])
          x in
      ground (arith, one, more)

  -- The members of a group are its deliveries.
  pub members-In :
      (o : StrictOrder NodeKey) (by_key : StrictOrder (List ℕ)) (group : List Delivery)
      → ((y : Delivery) → In y group → In y deliveries)
      → (x : Delivery) → In x (members o by_key deliveries group) ↔ In x group
  unfolding members
  members-In o by_key group all x = ground (
    arith,
    sort_by-In (key_before o by_key deliveries) x (put_members group []),
    put_members-In group [] all (λ y i. absurd i) x,
  )
