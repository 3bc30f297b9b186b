-- ===== src/Search/Rules.antt =====
-- apps/api/src/search/rules.ts: date specs and Message-IDs. Texts are UTF-16 code units.
pub mod Dates
pub mod Distance
use supamail.Common.{
  ℕ, zero, suc, ◌+◌, ◌-◌, ◌*◌, ◌/◌, ◌%◌, Bool, true, false, ◌&&◌, ◌||◌, not, Option, none, some,
  List, [], ◌∷◌, length, drop, ltb, leb, ◌==◌, if◌then◌else◌,
}
use supamail.Common.Text.{codes, same_codes, starts_with, ends_with}
use supamail.Search.Terms.{trim_start, trim_end}

abbrev pub is_digit : ℕ → Bool
is_digit c = leb 48 c && leb c 57

-- `Number` of a text of digits, after the digits that `amount` stands for.
unfoldable pub read_number : ℕ → List ℕ → ℕ
read_number amount [] = amount
read_number amount (c ∷ cs) = read_number (amount * 10 + (c - 48)) cs

-- `\d{n}` at the front of a text: the number and what follows it.
unfoldable pub take_digits : ℕ → ℕ → List ℕ → Option (ℕ × List ℕ)
take_digits zero amount text = some (amount, text)
take_digits (suc n) amount [] = none
take_digits (suc n) amount (c ∷ cs) =
    let rest = take_digits n (amount * 10 + (c - 48)) cs in if is_digit c then rest else none

-- The digits at the front of a text, and what follows them.
unfoldable pub span_digits : List ℕ → List ℕ × List ℕ
span_digits [] = ([], [])
span_digits (c ∷ cs) =
    let rest : List ℕ × List ℕ = (c ∷ (span_digits cs).0, (span_digits cs).1) in
    if is_digit c then rest else ([], c ∷ cs)

-- `RELATIVE_DATE_MAX`; none for another unit.
unfoldable pub relative_date_max : List ℕ → Option ℕ
relative_date_max unit =
    if same_codes unit (codes "h")
    then some 876000
    else if same_codes unit (codes "d")
    then some 36500
    else if same_codes unit (codes "w")
    then some 5200
    else if same_codes unit (codes "m")
    then some 1200
    else if same_codes unit (codes "y")
    then some 100
    else none

-- `RELATIVE_DATE`, and the limit of the unit.
unfoldable pub is_relative_date : List ℕ → Bool
is_relative_date value = elim (relative_date_max (span_digits value).1) [
  | none ↦ false
  | some most ↦
      leb 1 (length (span_digits value).0)
      && leb (length (span_digits value).0) 6
      && leb (read_number 0 (span_digits value).0) most
]

-- The groups of `ABSOLUTE_DATE`: a time of the day, its fraction's presence, and the zone's offset.
pub record ClockTime : Type 0 where
  pub hour : ℕ
  pub minute : ℕ
  pub second : ℕ
  pub has_fraction : Bool

pub data Zone : Type 0 where
  utc : Zone
  offset : (behind : Bool) → (hours : ℕ) → (minutes : ℕ) → Zone

pub record DateParts : Type 0 where
  pub year : ℕ
  pub month : ℕ
  pub day : ℕ
  pub clock : ClockTime
  pub zone : Zone

infixl 5 ◌then_read◌
abbrev pub ◌then_read◌ {ℓ} : {B : Type ℓ} → Option (ℕ × List ℕ) → (ℕ → List ℕ → Option B) → Option B
none then_read next = none
(some (n, rest)) then_read next = next n rest

-- One given character at the front.
unfoldable pub expect : ℕ → List ℕ → Option (List ℕ)
expect unit [] = none
expect unit (c ∷ cs) = if c == unit then some cs else none

abbrev midnight_clock : ClockTime
midnight_clock = record { hour = 0; minute = 0; second = 0; has_fraction = false }

-- `(?::?(\d{2}))?$`
offset_minutes : List ℕ → Option ℕ
offset_minutes [] = some 0
offset_minutes (c ∷ cs) = take_digits 2 0 (if c == b':' then cs else c ∷ cs) then_read λ m rest.
    elim rest [ [] ↦ some m | _ ∷ _ ↦ none ]

-- `(?:Z| ?UTC|([+-])(\d{2})(?::?(\d{2}))?)?$`
read_zone : List ℕ → Option Zone
read_zone [] = some Zone.utc
read_zone (c ∷ cs) =
    if same_codes (c ∷ cs) (codes "Z")
      || same_codes (c ∷ cs) (codes "UTC")
      || same_codes (c ∷ cs) (codes " UTC")
    then some Zone.utc
    else if c == b'+' || c == b'-'
    then (take_digits 2 0 cs then_read λ h rest. elim (offset_minutes rest) [
      | none ↦ none
      | some m ↦ some (Zone.offset (c == b'-') h m)
    ])
    else none

-- `(\.\d{1,9})?`, which follows the seconds.
read_fraction : List ℕ → Option (Bool × List ℕ)
read_fraction [] = some (false, [])
read_fraction (c ∷ cs) =
    if c == b'.'
    then (if leb 1 (length (span_digits cs).0) && leb (length (span_digits cs).0) 9
        then some (true, (span_digits cs).1)
        else none)
    else some (false, c ∷ cs)

-- `(?::(\d{2})(\.\d{1,9})?)?` and the zone.
read_seconds : ℕ → ℕ → List ℕ → Option (ClockTime × Zone)
read_seconds h m text = elim (expect b':' text) [
  | none ↦ elim (read_zone text) [
    | none ↦ none
    | some z ↦ some (record { hour = h; minute = m; second = 0; has_fraction = false }, z)
  ]
  | some rest ↦ take_digits 2 0 rest then_read λ s after. elim (read_fraction after) [
    | none ↦ none
    | some (fraction, zone) ↦ elim (read_zone zone) [
      | none ↦ none
      | some z ↦ some (record { hour = h; minute = m; second = s; has_fraction = fraction }, z)
    ]
  ]
]

-- `(?:[T ](\d{2}):(\d{2})…)?`
read_clock : List ℕ → Option (ClockTime × Zone)
read_clock [] = some (midnight_clock, Zone.utc)
read_clock (c ∷ cs) =
    if c == b'T' || c == 32
    then (take_digits 2 0 cs then_read λ h rest. elim (expect b':' rest) [
      | none ↦ none
      | some rest' ↦ take_digits 2 0 rest' then_read λ m after. read_seconds h m after
    ])
    else none

-- `ABSOLUTE_DATE.exec`
unfoldable pub match_absolute_date : List ℕ → Option DateParts
unfolding take_digits span_digits expect offset_minutes read_zone read_fraction read_seconds
    read_clock
match_absolute_date value = take_digits 4 0 value then_read λ y rest. elim (expect b'-' rest) [
  | none ↦ none
  | some rest' ↦ take_digits 2 0 rest' then_read λ m after. elim (expect b'-' after) [
    | none ↦ none
    | some after' ↦ take_digits 2 0 after' then_read λ d time. elim (read_clock time) [
      | none ↦ none
      | some (t, z) ↦ some (record { year = y; month = m; day = d; clock = t; zone = z })
    ]
  ]
]

unfoldable pub is_leap : ℕ → Bool
is_leap year = year % 4 == 0 && (not (year % 100 == 0) || year % 400 == 0)

-- The day of the month on which `setUTCFullYear(year, month, 0)` lies.
unfoldable pub days_in_month : ℕ → ℕ → ℕ
days_in_month year month =
    if month == 2
    then (if is_leap year then 29 else 28)
    else if month == 4 || month == 6 || month == 9 || month == 11
    then 30
    else 31

-- The days of the years 0 to year - 1.
unfoldable pub days_before_year : ℕ → ℕ
days_before_year year = year * 365 + (year + 3) / 4 + (year + 399) / 400 - (year + 99) / 100

-- The days of the first `months` months of a year.
unfoldable pub days_before_month : ℕ → ℕ → ℕ
days_before_month year zero = 0
days_before_month year (suc months) =
    days_before_month year months + days_in_month year (suc months)

-- The guard of `parseAbsoluteDate`.
unfoldable pub is_midnight : ClockTime → Bool
is_midnight t = t.hour == 24 && t.minute == 0 && t.second == 0 && not t.has_fraction

unfoldable pub offset_ok : Zone → Bool
offset_ok Zone.utc = true
offset_ok (Zone.offset behind hours minutes) = leb hours 15 && ltb minutes 60

unfoldable pub parts_ok : DateParts → Bool
parts_ok p =
    leb 1 p.month
    && leb p.month 12
    && leb 1 p.day
    && leb p.day (days_in_month p.year p.month)
    && (ltb p.clock.hour 24 || is_midnight p.clock)
    && ltb p.clock.minute 60
    && ltb p.clock.second 60
    && offset_ok p.zone

-- Seconds from the start of the year 0. An instant before it is in no accepted year, and neither is 0.
unfoldable pub local_seconds : DateParts → ℕ
local_seconds p =
    (days_before_year p.year + days_before_month p.year (p.month - 1) + (p.day - 1)) * 86400
    + p.clock.hour * 3600
    + p.clock.minute * 60
    + p.clock.second

unfoldable pub apply_zone : Zone → ℕ → ℕ
apply_zone Zone.utc t = t
apply_zone (Zone.offset behind hours minutes) t =
    if behind then t + (hours * 60 + minutes) * 60 else t - (hours * 60 + minutes) * 60

-- `resolvedYear >= 1 && resolvedYear <= 9999`
unfoldable pub in_years : ℕ → Bool
in_years t = leb (days_before_year 1 * 86400) t && ltb t (days_before_year 10000 * 86400)

-- The instant, in whole seconds.
unfoldable pub parse_absolute_date : List ℕ → Option ℕ
parse_absolute_date value = elim (match_absolute_date value) [
  | none ↦ none
  | some p ↦
      if parts_ok p
      then (if in_years (apply_zone p.zone (local_seconds p))
          then some (apply_zone p.zone (local_seconds p))
          else none)
      else none
]

unfoldable pub is_valid_absolute_date : List ℕ → Bool
is_valid_absolute_date value = elim (parse_absolute_date value) [ none ↦ false | some t ↦ true ]

-- `value.trim().replace(/^<|>$/g, "")`
unfoldable pub drop_last_angle : List ℕ → List ℕ
drop_last_angle [] = []
drop_last_angle (c ∷ []) = if c == b'>' then [] else c ∷ []
drop_last_angle (c ∷ d ∷ ds) = c ∷ drop_last_angle (d ∷ ds)

unfoldable pub drop_angles : List ℕ → List ℕ
unfolding drop_last_angle
drop_angles text = drop_last_angle (if starts_with b'<' text then drop 1 text else text)

-- `normalizeMessageId`, with the platform's `toLowerCase`.
unfoldable pub normalize_message_id : (List ℕ → List ℕ) → Option (List ℕ) → Option (List ℕ)
unfolding drop_angles trim_start trim_end
normalize_message_id to_lower none = none
normalize_message_id to_lower (some value) =
    if length value == 0
    then none
    else elim (to_lower (drop_angles (trim_end (trim_start value)))) [
      | [] ↦ none
      | c ∷ cs ↦ some (c ∷ cs)
    ]
