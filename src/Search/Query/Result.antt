-- ===== src/Search/Query/Result.antt =====
-- What `parseQuery` makes of the filters that it reads.
use supamail.Common.{
  ℕ, ◌≡◌, refl, sym, ap, subst, ◌∙◌, true, false, inl, inr, Option, none, some, List, [], ◌∷◌, ◌++◌,
  append-nil, append_assoc, All, Bool-cases, Option-cases,
}
use supamail.Search.Terms.{TextTerms, is_or, tokenize, parse_text_terms}
use supamail.Search.Terms.Groups.{parse_text_terms_lem}
use supamail.Search.Fields.{SearchFilter, Members, members_of, members_list}
use supamail.Search.Query.{Platform, Reading, ReadState, read_token, trim}
use supamail.Search.Query.Warnings.{warn_text}
use supamail.Search.Query.Filters.{IsRead, IsLimit, Well, read_token-Well}
use supamail.Search.Query.Parse.{
  QueryItem, item_of, add_member, join_or, join_last, LoopState, are_filters, are_texts,
  read_or_item, push_filter, read_item, first_item, read_items, ParsedQuery, all_members,
  read_query_tokens, body_of, body_warnings, join_words, start_reading, finish_query, query_items,
  parse_query, start_loop,
}

-- The filters of the items, in order.
abbrev pub read_filters : List QueryItem → List SearchFilter
read_filters [] = []
read_filters (QueryItem.filter_item token f ∷ items) = f ∷ read_filters items
read_filters (item ∷ items) = read_filters items

abbrev HasFilter : List SearchFilter → Type 0
HasFilter [] = ⊥
HasFilter (f ∷ fs) = Unit

all_members-append :
    (fs gs : List SearchFilter) → all_members (fs ++ gs) ≡ all_members fs ++ all_members gs
all_members-append [] gs = refl
all_members-append (f ∷ fs) gs = simp (all_members-append fs gs, append_assoc)

HasFilter-snoc : (fs : List SearchFilter) (f : SearchFilter) → HasFilter (fs ++ f ∷ [])
HasFilter-snoc [] f = tt
HasFilter-snoc (g ∷ fs) f = tt

members-add :
    (fs : Members) (f : SearchFilter) → members_list (add_member fs f) ≡ members_list fs ++ f ∷ []
members-add Members.no_member f = refl
members-add (Members.member g fs) f = ap (λ l. g ∷ l) (members-add fs f)

members-join : (f g : SearchFilter) → members_of (join_or f g) ≡ members_of f ++ g ∷ []
unfolding join_or
members-join (SearchFilter.or_filter fs n raw) g = members-add fs g
members-join (SearchFilter.text_filter k v n raw) g = refl
members-join (SearchFilter.flag v n raw) g = refl
members-join (SearchFilter.has_attachment n raw) g = refl
members-join (SearchFilter.has_body n raw) g = refl
members-join (SearchFilter.date op v n raw) g = refl
members-join (SearchFilter.bytes op v n raw) g = refl

-- A filter that was read is its own only member.
members-read : (f : SearchFilter) → IsRead f → members_of f ≡ f ∷ []
members-read (SearchFilter.or_filter fs n raw) h = absurd h
members-read (SearchFilter.text_filter k v n raw) h = refl
members-read (SearchFilter.flag v n raw) h = refl
members-read (SearchFilter.has_attachment n raw) h = refl
members-read (SearchFilter.has_body n raw) h = refl
members-read (SearchFilter.date op v n raw) h = refl
members-read (SearchFilter.bytes op v n raw) h = refl

join_last_lem :
    (g : SearchFilter) (fs : List SearchFilter)
    → HasFilter fs
    → (joined : List SearchFilter) × (join_last g fs ≡ some joined)
      × HasFilter joined
      × (all_members joined ≡ all_members fs ++ g ∷ [])
unfolding join_last
join_last_lem g [] h = absurd h
join_last_lem g (f ∷ []) h = (
  join_or f g ∷ [],
  refl,
  tt,
  append-nil (members_of (join_or f g))
      ∙ members-join f g
      ∙ ap (λ l. l ++ g ∷ []) (sym (append-nil (members_of f))),
)
join_last_lem g (f ∷ f' ∷ fs) h =
    let (joined, e, k, m) = join_last_lem g (f' ∷ fs) tt in
    (
      f ∷ joined,
      rw e refl,
      tt,
      ap (λ l. members_of f ++ l) m
          ∙ sym (append_assoc (members_of f) (all_members (f' ∷ fs)) (g ∷ [])),
    )

-- What holds after `push_filter` and at each item: whoever will pop a filter finds one.
pub record Pushed (f : SearchFilter) (s next : LoopState) : Type 0 where
  pub held : HasFilter next.filters
  pub cleared : next.join_next ≡ false
  pub kept : all_members next.filters ≡ all_members s.filters ++ f ∷ []

push_filter_lem :
    (f : SearchFilter) (s : LoopState)
    → IsRead f
    → (s.join_next ≡ true → HasFilter s.filters)
    → (next : LoopState) × (push_filter f s ≡ some next) × Pushed f s next
unfolding push_filter
push_filter_lem f s r h = elim (Bool-cases s.join_next) [
  | inl joins ↦
      let (joined, e, k, m) = join_last_lem f s.filters (h joins) in
      (
        record s { filters = joined; join_next = false },
        simp (joins, e),
        record { held = k; cleared = refl; kept = m },
      )
  | inr pushes ↦ (
    record s { filters = s.filters ++ f ∷ []; join_next = false },
    simp pushes,
    record {
      held = HasFilter-snoc s.filters f;
      cleared = refl;
      kept =
          all_members-append s.filters (f ∷ [])
          ∙ ap (λ l. all_members s.filters ++ l) (append-nil (members_of f) ∙ members-read f r);
    },
  )
]

-- What `filters.pop()!` relies on, before an item: the filter to its left is in the list.
abbrev After : Option QueryItem → List SearchFilter → Type 0
After (some (QueryItem.filter_item token f)) fs = HasFilter fs
After _ fs = Unit

pub record Ready (left : Option QueryItem) (s : LoopState) : Type 0 where
  pub after : After left s.filters
  pub joinable : s.join_next ≡ true → HasFilter s.filters

abbrev IsReadItem : QueryItem → Type 0
IsReadItem (QueryItem.filter_item token f) = IsRead f
IsReadItem _ = Unit

are_filters-After :
    (left right : Option QueryItem) (fs : List SearchFilter)
    → After left fs
    → are_filters left right ≡ true
    → HasFilter fs
are_filters-After (some (QueryItem.filter_item t f)) right fs h e = h
are_filters-After (some (QueryItem.text_item t)) right fs h e = cc
are_filters-After (some (QueryItem.or_item t)) right fs h e = cc
are_filters-After (some (QueryItem.other_item t)) right fs h e = cc
are_filters-After none right fs h e = cc

record OrRead (s next : LoopState) : Type 0 where
  joinable : next.join_next ≡ true → HasFilter next.filters
  kept : next.filters ≡ s.filters

read_or_item-OrRead :
    (left : Option QueryItem) (token : List ℕ) (right : Option QueryItem) (s : LoopState)
    → Ready left s
    → OrRead s (read_or_item left token right s)
unfolding read_or_item
read_or_item-OrRead left token right s h = elim (Bool-cases (are_filters left right)) [
  | inl joins ↦
      rw joins (record {
        joinable = λ e. are_filters-After left right s.filters h.after joins;
        kept = refl;
      })
  | inr apart ↦ elim (Bool-cases (are_texts left right)) [
    | inl texts ↦ rw (apart) (rw texts (record { joinable = h.joinable; kept = refl }))
    | inr ignored ↦ rw (apart) (rw ignored (record { joinable = h.joinable; kept = refl }))
  ]
]

-- The loop never throws, and keeps the filters in order.
read_items_lem :
    (left : Option QueryItem) (items : List QueryItem) (s : LoopState)
    → Ready left s
    → All IsReadItem items
    → (last : LoopState) × (read_items left items s ≡ some last)
      × (all_members last.filters ≡ all_members s.filters ++ read_filters items)
unfolding read_items read_item
read_items_lem left [] s h r = (s, refl, sym (append-nil (all_members s.filters)))
read_items_lem left (QueryItem.or_item token ∷ items) s h r =
    let next = read_or_item left token (first_item items) s in
    let k = read_or_item-OrRead left token (first_item items) s h in
    let (last, e, m) =
      read_items_lem (some (QueryItem.or_item token)) items next
        (record { after = tt; joinable = k.joinable }) r.1 in
    (last, e, m ∙ ap (λ fs. all_members fs ++ read_filters items) k.kept)
read_items_lem left (QueryItem.filter_item token f ∷ items) s h r =
    let (next, pushed, k) = push_filter_lem f s r.0 h.joinable in
    let (last, e, m) =
      read_items_lem (some (QueryItem.filter_item token f)) items next
        (record { after = k.held; joinable = λ j. k.held }) r.1 in
    (
      last,
      rw (pushed, read_items, read_item) e,
      m
          ∙ ap (λ fs. fs ++ read_filters items) k.kept
          ∙ append_assoc (all_members s.filters) (f ∷ []) (read_filters items),
    )
read_items_lem left (QueryItem.text_item token ∷ items) s h r =
    read_items_lem (some (QueryItem.text_item token)) items
      (record s { free_text_parts = s.free_text_parts ++ token ∷ []; join_next = false })
      (record { after = tt; joinable = λ j. cc }) r.1
read_items_lem left (QueryItem.other_item token ∷ items) s h r =
    read_items_lem (some (QueryItem.other_item token)) items (record s { join_next = false })
      (record { after = tt; joinable = λ j. cc }) r.1

module _ (platform : Platform) where
  read_filters-IsRead :
      (items : List QueryItem) → All IsReadItem items → All IsRead (read_filters items)
  read_filters-IsRead [] h = tt
  read_filters-IsRead (QueryItem.filter_item token f ∷ items) h =
      (h.0, read_filters-IsRead items h.1)
  read_filters-IsRead (QueryItem.text_item token ∷ items) h = read_filters-IsRead items h.1
  read_filters-IsRead (QueryItem.or_item token ∷ items) h = read_filters-IsRead items h.1
  read_filters-IsRead (QueryItem.other_item token ∷ items) h = read_filters-IsRead items h.1

  item_of-IsReadItem :
      (token : List ℕ) (r : Reading × ReadState) → Well r → IsReadItem (item_of token r.0)
  item_of-IsReadItem token (Reading.nothing, s) h = tt
  item_of-IsReadItem token (Reading.free_text, s) h = tt
  item_of-IsReadItem token (Reading.filter f, s) h = h.reads

  read_query_tokens-IsRead :
      (tokens : List (List ℕ)) (s : ReadState)
      → IsLimit s.limit
      → All IsReadItem (read_query_tokens platform tokens s).0
        × IsLimit (read_query_tokens platform tokens s).1.limit
  unfolding read_query_tokens
  read_query_tokens-IsRead [] s h = (tt, h)
  read_query_tokens-IsRead (token ∷ tokens) s h = elim (Bool-cases (is_or token)) [
    | inl is_or_token ↦
        let rest = read_query_tokens-IsRead tokens s h in rw is_or_token ((tt, rest.0), rest.1)
    | inr other ↦
        let read = read_token-Well platform s h token in
        let rest = read_query_tokens-IsRead tokens (read_token platform token s).1 read.limited in
        rw other ((item_of-IsReadItem token (read_token platform token s) read, rest.0), rest.1)
  ]

  parses :
      (text : List ℕ)
      → (terms : TextTerms) × (parse_text_terms platform.is_searchable text ≡ some terms)
  parses text = let found = parse_text_terms_lem platform.is_searchable text in (found.0, found.1)

  pub body_warnings-total :
      (fs : List SearchFilter) (warnings : List (List ℕ))
      → (out : List (List ℕ)) × (body_warnings platform fs warnings ≡ some out)
  unfolding body_warnings
  body_warnings-total [] warnings = (warnings, refl)
  body_warnings-total (f ∷ fs) warnings = elim (Option-cases (body_of f)) [
    | inl other ↦
        let (out, e) = body_warnings-total fs warnings in (out, rw (other, body_warnings) e)
    | inr ((value, negated), body) ↦
        let (terms, parsed) = parses value in
        let (out, e) = body_warnings-total fs (warn_text warnings value terms true negated) in
        (out, rw (body, body_warnings) (rw parsed e))
  ]

  finish_query-total :
      (reading : ReadState) (s : LoopState)
      → (q : ParsedQuery) × (finish_query platform reading s ≡ some q)
        × (q.filters ≡ s.filters)
        × (q.limit ≡ reading.limit)
  unfolding finish_query
  finish_query-total reading s =
      let free_text = trim (join_words s.free_text_parts) in
      let (text, parsed) = parses free_text in
      let (warnings, e) =
        body_warnings-total (all_members s.filters)
          (warn_text s.warnings free_text text false false) in
      (
        record {
          free_text = free_text;
          text = text;
          accounts = reading.accounts;
          filters = s.filters;
          sort = reading.sort;
          limit = reading.limit;
          warnings = warnings;
        },
        rw (parsed, finish_query) (rw e refl),
        refl,
        refl,
      )

  query_items-IsRead :
      (input : List ℕ)
      → All IsReadItem (query_items platform input).0 × IsLimit (query_items platform input).1.limit
  unfolding query_items
  query_items-IsRead input = read_query_tokens-IsRead (tokenize input) (start_reading platform) tt

  -- `parseQuery` never throws. The members of its filters, in order, are the filters of the tokens in
  -- the order of the input, so that an OR neither drops nor repeats one. None of them is an OR filter,
  -- each of their dates is valid, and a limit is from 1 to 100.
  pub parse_query_lem :
      (input : List ℕ)
      → (q : ParsedQuery) × (parse_query platform input ≡ some q)
        × (all_members q.filters ≡ read_filters (query_items platform input).0)
        × All IsRead (all_members q.filters)
        × IsLimit q.limit
  unfolding parse_query
  parse_query_lem input =
      let reading = (query_items platform input).1 in
      let items = (query_items platform input).0 in
      let (all_read, limited) = query_items-IsRead input in
      let (s, looped, kept) =
        read_items_lem none items (start_loop platform reading.warnings)
          (record { after = tt; joinable = λ e. cc }) all_read in
      let (q, finished, filters, limit) = finish_query-total reading s in
      let same : all_members q.filters ≡ read_filters items = ap all_members filters ∙ kept in
      (
        q,
        rw (looped, parse_query) finished,
        same,
        subst (All IsRead) (sym same) (read_filters-IsRead items all_read),
        subst IsLimit (sym limit) limited,
      )
