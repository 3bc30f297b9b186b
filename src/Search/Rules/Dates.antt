-- ===== src/Search/Rules/Dates.antt =====
-- Dates print and parse back: the instant of `YYYY-MM-DD`.
use supamail.Common.{
  ℕ, zero, suc, ◌+◌, ◌-◌, ◌*◌, ◌/◌, ◌%◌, ◌≤◌, ◌<◌, ◌≡◌, refl, Bool, true, false, ◌&&◌, some, List,
  [], ◌∷◌, ◌++◌, leb, ◌==◌, ==_iff, sym, subst, Bool-cases, inl, inr, arith,
}
use supamail.Search.Rules.{
  take_digits, match_absolute_date, is_leap, days_in_month, days_before_year, days_before_month,
  parts_ok, offset_ok, is_midnight, local_seconds, apply_zone, in_years, parse_absolute_date,
  DateParts, Zone,
}

abbrev pub two_digits : ℕ → List ℕ
two_digits n = (48 + n / 10) ∷ (48 + n % 10) ∷ []

abbrev pub four_digits : ℕ → List ℕ
four_digits n = (48 + n / 1000) ∷ (48 + n / 100 % 10) ∷ (48 + n / 10 % 10) ∷ (48 + n % 10) ∷ []

take_two :
    (n : ℕ) (rest : List ℕ) → n < 100 → take_digits 2 0 (two_digits n ++ rest) ≡ some (n, rest)
unfolding take_digits
take_two n rest h = ground arith

take_four :
    (n : ℕ) (rest : List ℕ) → n < 10000 → take_digits 4 0 (four_digits n ++ rest) ≡ some (n, rest)
unfolding take_digits
take_four n rest h = ground arith

abbrev pub print_date : ℕ → ℕ → ℕ → List ℕ
print_date y m d = four_digits y ++ 45 ∷ two_digits m ++ 45 ∷ two_digits d ++ []

abbrev date_parts : ℕ → ℕ → ℕ → DateParts
date_parts y m d = record {
  year = y;
  month = m;
  day = d;
  clock = record { hour = 0; minute = 0; second = 0; has_fraction = false };
  zone = Zone.utc;
}

match-print_date :
    (y m d : ℕ)
    → y < 10000
    → m < 100
    → d < 100
    → match_absolute_date (print_date y m d) ≡ some (date_parts y m d)
unfolding match_absolute_date
match-print_date y m d hy hm hd =
    rw (take_four y (45 ∷ two_digits m ++ 45 ∷ two_digits d ++ []) hy)
      (rw (take_two m (45 ∷ two_digits d ++ []) hm) (rw (take_two d [] hd) refl))

days_in_month-le : (y m : ℕ) → days_in_month y m ≤ 31
unfolding days_in_month
days_in_month-le y m = ground arith

days_before_month-le : (y m : ℕ) → days_before_month y m ≤ 31 * m
unfolding days_before_month
days_before_month-le y zero = omega arith
days_before_month-le y (suc m) = omega (arith, days_before_month-le y m, days_in_month-le y (suc m))

-- In the year 9999 the last day of every month is at most the 365th.
last_days : ℕ → Bool
last_days zero = true
last_days (suc m) = leb (days_before_month 9999 m + days_in_month 9999 (suc m)) 365 && last_days m

last_days_sound :
    (n m : ℕ)
    → last_days n ≡ true
    → m < n
    → days_before_month 9999 m + days_in_month 9999 (suc m) ≤ 365
unfolding last_days
last_days_sound zero m h lt = absurd (omega arith)
last_days_sound (suc n) m h lt = ground (arith, last_days_sound n m)

last_days_12 : last_days 12 ≡ true
unfolding last_days days_before_month days_in_month is_leap
last_days_12 = refl

year_9999 : days_before_year 9999 + 365 ≡ days_before_year 10000
unfolding days_before_year
year_9999 = refl

early_years : (y : ℕ) → y < 9999 → days_before_year y + 730 ≤ days_before_year 10000
unfolding days_before_year
early_years y h = omega arith

first_year : (y : ℕ) → 1 ≤ y → days_before_year 1 ≤ days_before_year y
unfolding days_before_year
first_year y h = omega arith

-- `parse_absolute_date` on the parts of a bare date.
parts-ok :
    (y m d : ℕ)
    → m < 12
    → 1 ≤ d
    → d ≤ days_in_month y (suc m)
    → parts_ok (date_parts y (suc m) d) ≡ true
unfolding parts_ok offset_ok is_midnight
parts-ok y m d hm hd h = ground arith

local :
    (y m d : ℕ)
    → apply_zone Zone.utc (local_seconds (date_parts y (suc m) d))
      ≡ (days_before_year y + days_before_month y m + (d - 1)) * 86400
unfolding apply_zone local_seconds
local y m d = let e : suc m - 1 ≡ m = omega arith in rw e (omega arith)

before_10000 :
    (y m d : ℕ)
    → y ≤ 9999
    → m < 12
    → 1 ≤ d
    → d ≤ days_in_month y (suc m)
    → days_before_year y + days_before_month y m + (d - 1) < days_before_year 10000
before_10000 y m d hy hm hd h = elim (Bool-cases (y == 9999)) [
  | inl last ↦
      let e : 9999 ≡ y = sym ((==_iff y 9999).0 last) in
      subst
        (λ z.
          d ≤ days_in_month z (suc m)
          → days_before_year z + days_before_month z m + (d - 1) < days_before_year 10000)
        e (in_9999 m d hm hd) h
  | inr earlier ↦ before_9999 y m d (not_last y earlier hy) hm h
]
  where
    in_9999 :
        (m d : ℕ)
        → m < 12
        → 1 ≤ d
        → d ≤ days_in_month 9999 (suc m)
        → days_before_year 9999 + days_before_month 9999 m + (d - 1) < days_before_year 10000
    in_9999 m d hm hd h = omega (arith, last_days_sound 12 m last_days_12 hm, year_9999)

    not_last : (y : ℕ) → (y == 9999) ≡ false → y ≤ 9999 → y < 9999
    not_last y e h = ground arith

    before_9999 :
        (y m d : ℕ)
        → y < 9999
        → m < 12
        → d ≤ days_in_month y (suc m)
        → days_before_year y + days_before_month y m + (d - 1) < days_before_year 10000
    before_9999 y m d hy hm h =
        omega (arith, early_years y hy, days_before_month-le y m, days_in_month-le y (suc m))

in_years_lem :
    (y m d : ℕ)
    → 1 ≤ y
    → y ≤ 9999
    → m < 12
    → 1 ≤ d
    → d ≤ days_in_month y (suc m)
    → in_years ((days_before_year y + days_before_month y m + (d - 1)) * 86400) ≡ true
unfolding in_years
in_years_lem y m d h1 hy hm hd h = ground (arith, before_10000 y m d hy hm hd h, first_year y h1)

-- A date of the years 1 to 9999, printed as `YYYY-MM-DD`, is read as the start of that day in UTC.
pub parse-print_date :
    (y m d : ℕ)
    → 1 ≤ y
    → y ≤ 9999
    → m < 12
    → 1 ≤ d
    → d ≤ days_in_month y (suc m)
    → parse_absolute_date (print_date y (suc m) d)
      ≡ some ((days_before_year y + days_before_month y m + (d - 1)) * 86400)
unfolding parse_absolute_date
parse-print_date y m d h1 hy hm hd h =
    let e =
      match-print_date y (suc m) d (omega arith) (omega arith)
        (omega (arith, days_in_month-le y (suc m))) in
    rw (e, parse_absolute_date)
      (rw (parts-ok y m d hm hd h) (rw (local y m d) (rw (in_years_lem y m d h1 hy hm hd h) refl)))
