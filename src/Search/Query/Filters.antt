-- ===== src/Search/Query/Filters.antt =====
-- What `readToken` may return: no OR filter, and no date that is not valid.
use supamail.Common.{
  ℕ, ◌≡◌, ◌≤◌, refl, Bool, true, false, not, ◌&&◌, inl, inr, Option, none, some, List, ◌++◌, ◌||◌,
  length, ◌==◌, if◌then◌else◌, Bool-cases, arith, min,
}
use supamail.Common.Text.{codes}
use supamail.Search.Fields.{
  SearchFilter, DateOp, TextFieldRule, text_fields, text_field_by_operator,
}
use supamail.Search.Query.{
  Platform, is_valid_date, map_is_flag, flip, is, ignore, routed, trim, strip_quotes, ascii_lower,
  looks_like_value, unknown_operator, add_warning, parse_size_to_bytes, sort_of, ReadState, Reading,
  read_is, read_has, read_date, read_size, read_sort, read_limit, read_special, read_operator,
  read_token, match_operator, is_known, parse_positive,
}

-- A filter that a token may give.
abbrev pub IsRead : SearchFilter → Type 0
IsRead (SearchFilter.or_filter filters negated raw) = ⊥
IsRead (SearchFilter.date op value negated raw) = is_valid_date value ≡ true
IsRead _ = Unit

-- A limit that may be set.
abbrev pub IsLimit : Option ℕ → Type 0
IsLimit none = Unit
IsLimit (some n) = (1 ≤ n) × (n ≤ 100)

abbrev ReadsWell : Reading → Type 0
ReadsWell Reading.nothing = Unit
ReadsWell Reading.free_text = Unit
ReadsWell (Reading.filter f) = IsRead f

pub record Well (r : Reading × ReadState) : Type 0 where
  pub reads : ReadsWell r.0
  pub limited : IsLimit r.1.limit

leaf : (reading : Reading) (s : ReadState) → ReadsWell reading → IsLimit s.limit → Well (reading, s)
leaf reading s r l = record { reads = r; limited = l }

ignored : (warning : List ℕ) (s : ReadState) → IsLimit s.limit → Well (ignore warning s)
ignored warning s l = record { reads = tt; limited = l }

branch : (b : Bool) (x y : Reading × ReadState) → Well x → Well y → Well (if b then x else y)
branch true x y hx hy = hx
branch false x y hx hy = hy

-- Every flag that `mapIsFlag` gives is a flag filter, and so is its negation.
abbrev IsFlag : Option SearchFilter → Type 0
IsFlag (some (SearchFilter.flag v n raw)) = Unit
IsFlag (some _) = ⊥
IsFlag none = Unit

IsFlag-branch :
    (b : Bool) (x y : Option SearchFilter) → IsFlag x → IsFlag y → IsFlag (if b then x else y)
IsFlag-branch true x y hx hy = hx
IsFlag-branch false x y hx hy = hy

map_is_flag-IsFlag : (platform : Platform) (value : List ℕ) → IsFlag (map_is_flag platform value)
unfolding map_is_flag
map_is_flag-IsFlag platform value =
    let v = platform.to_lower value in
    IsFlag-branch (is v (codes "read") || is v (codes "seen")) _ _ tt (
      IsFlag-branch (is v (codes "unread") || is v (codes "unseen")) _ _ tt (
        IsFlag-branch (is v (codes "flagged") || is v (codes "starred") || is v (codes "important"))
          _ _ tt
          (IsFlag-branch (is v (codes "answered") || is v (codes "replied")) _ _ tt
            (IsFlag-branch (is v (codes "draft")) _ _ tt tt))))

flag-IsRead :
    (negated : Bool) (o : Option SearchFilter) (warning : List ℕ) (s : ReadState)
    → IsFlag o
    → IsLimit s.limit
    → Well (elim o [
      | none ↦ ignore warning s
      | some mapped ↦ (Reading.filter (if negated then flip mapped else mapped), s)
    ])
unfolding flip
flag-IsRead negated none warning s f l = ignored warning s l
flag-IsRead true (some (SearchFilter.flag v n raw)) warning s f l = leaf _ s tt l
flag-IsRead false (some (SearchFilter.flag v n raw)) warning s f l = leaf _ s tt l
flag-IsRead negated (some (SearchFilter.text_filter k v n raw)) warning s f l = absurd f
flag-IsRead negated (some (SearchFilter.has_attachment n raw)) warning s f l = absurd f
flag-IsRead negated (some (SearchFilter.has_body n raw)) warning s f l = absurd f
flag-IsRead negated (some (SearchFilter.date op v n raw)) warning s f l = absurd f
flag-IsRead negated (some (SearchFilter.bytes op v n raw)) warning s f l = absurd f
flag-IsRead negated (some (SearchFilter.or_filter fs n raw)) warning s f l = absurd f

choice :
    {A : Type 0} (o : Option A) (x : Reading × ReadState) (y : A → Reading × ReadState)
    → Well x
    → ((a : A) → o ≡ some a → Well (y a))
    → Well (elim o [ none ↦ x | some a ↦ y a ])
choice none x y hx hy = hx
choice (some a) x y hx hy = hy a refl

parse_positive-le : (value : List ℕ) {n : ℕ} → parse_positive value ≡ some n → 1 ≤ n
unfolding parse_positive
parse_positive-le value h = ground arith

min-IsLimit : (n : ℕ) → 1 ≤ n → (1 ≤ min n 100) × (min n 100 ≤ 100)
min-IsLimit n h = ground arith

module _ (platform : Platform) (s : ReadState) (h : IsLimit s.limit) where
  read_is-Well : (negated : Bool) (value : List ℕ) → Well (read_is platform negated value s)
  unfolding read_is
  read_is-Well negated value =
      flag-IsRead negated (map_is_flag platform value) _ s (map_is_flag-IsFlag platform value) h

  read_has-Well :
      (negated : Bool) (value raw : List ℕ) → Well (read_has platform negated value raw s)
  unfolding read_has
  read_has-Well negated value raw = search (branch, leaf, ignored)

  read_date-Well :
      (op : DateOp) (field : List ℕ) (negated : Bool) (value raw : List ℕ)
      → Well (read_date op field negated value raw s)
  unfolding read_date
  read_date-Well op field negated value raw = elim (Bool-cases (is_valid_date value)) [
    | inl valid ↦ rw valid (leaf _ s valid h)
    | inr invalid ↦ rw invalid (ignored _ s h)
  ]

  read_size-Well :
      (field : List ℕ) (negated : Bool) (value raw : List ℕ)
      → Well (read_size platform field negated value raw s)
  unfolding read_size
  read_size-Well field negated value raw =
      choice (parse_size_to_bytes platform value) _ _ (ignored _ s h) (λ n e. leaf _ s tt h)

  read_sort-Well : (value : List ℕ) → Well (read_sort platform value s)
  unfolding read_sort
  read_sort-Well value =
      choice (sort_of (platform.to_lower value)) _ _ (ignored _ s h)
        (λ found e. leaf _ (record s { sort = some found }) tt h)

  read_limit-Well : (value : List ℕ) → Well (read_limit value s)
  unfolding read_limit
  read_limit-Well value = choice (parse_positive value) _ _ (ignored _ s h) (λ n e.
      leaf _ (record s { limit = some (min n 100) }) tt (min-IsLimit n (parse_positive-le value e)))

  read_special-Well :
      (field : List ℕ) (negated : Bool) (value raw : List ℕ)
      → Well (read_special platform field negated value raw s)
  unfolding read_special
  read_special-Well field negated value raw =
      search
        (
          branch, leaf, ignored, read_is-Well, read_has-Well, read_date-Well, read_size-Well,
          read_sort-Well, read_limit-Well,
        )
        depth 14

  abbrev text_reading : TextFieldRule → Bool → List ℕ → List ℕ → ReadState → Reading × ReadState
  text_reading rule negated value raw t = (
    Reading.filter
        (SearchFilter.text_filter (routed rule value).kind (routed rule value).value negated raw),
    t,
  )

  read_operator-Well :
      (field : List ℕ) (negated : Bool) (value raw : List ℕ)
      → Well (read_operator platform field negated value raw s)
  unfolding read_operator
  read_operator-Well field negated value raw =
      branch (length value == 0 && not (is field (codes "has")))
        (ignore (codes "empty value for operator " ++ field ++ codes ":; ignored") s)
        (elim (text_field_by_operator field (text_fields platform.to_lower)) [
          | none ↦ read_special platform field negated value raw s
          | some rule ↦ text_reading rule negated value raw s
        ])
        (ignored _ s h)
        (choice (text_field_by_operator field (text_fields platform.to_lower))
          (read_special platform field negated value raw s)
          (λ rule. text_reading rule negated value raw s)
          (read_special-Well field negated value raw) (λ rule e. leaf _ s tt h))

  unknown-Well :
      (b : Bool) (t : ReadState) → IsLimit t.limit → Well (Reading.free_text, if b then t else s)
  unknown-Well true t k = leaf _ t tt k
  unknown-Well false t k = leaf _ s tt h

  pub read_token-Well : (token : List ℕ) → Well (read_token platform token s)
  unfolding read_token
  read_token-Well token =
      choice (match_operator token) (Reading.free_text, s)
        (λ m.
          if is_known platform (ascii_lower m.name)
          then read_operator platform (ascii_lower m.name) m.minus (trim (strip_quotes m.rest))
              token s
          else (
            Reading.free_text,
            if looks_like_value m.rest
                then record s { warnings = add_warning (unknown_operator m token) s.warnings }
                else s,
          ))
        (leaf Reading.free_text s tt h)
        (λ m e.
          branch (is_known platform (ascii_lower m.name)) _ _
            (read_operator-Well (ascii_lower m.name) m.minus (trim (strip_quotes m.rest)) token)
            (unknown-Well (looks_like_value m.rest) _ h))
