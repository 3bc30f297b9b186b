-- ===== src/HostValidation/Mapped.antt =====
-- IPv4-mapped addresses of family 6: they are classified as the IPv4 address that they stand for.
use supamail.Common.{
  ℕ, zero, suc, ◌+◌, ◌*◌, ◌/◌, ◌%◌, ◌^◌, ◌≤◌, ◌<◌, ◌≡◌, ◌≢◌, refl, ap, ◌∙◌, Bool, true, false, ◌&&◌,
  Option, none, some, inl, inr, List, [], ◌∷◌, ◌++◌, length, length-append, leb, leb→le, ◌==◌,
  if◌then◌else◌, arith, Option-cases,
}
use supamail.Common.Text.{same_codes}
use supamail.HostValidation.{
  IpFamily, split, lower_unit, is_ipv4, has_prefix, to_lower, hex_digit, hex_number, hextet, dotted,
  join_halves, dotted_value, mapped_prefix, mapped_suffix, from_hextets, is_private_v4, reserved_v6,
  ipv4_from_mapped_ipv6, private_calls, is_private_or_reserved_ip,
}
use supamail.HostValidation.Digits.{IsByte, Without, split-append, split-nil}
use supamail.HostValidation.Blocks.{address, in_reserved_block, is_private_v4-blocks}

-- A unit of `[0-9a-f]`.
hex_digit-lt : (c : ℕ) {d : ℕ} → hex_digit c ≡ some d → d < 16
unfolding hex_digit
hex_digit-lt c h = ground arith

hex_digit-plain :
    (c : ℕ) {d : ℕ} → hex_digit c ≡ some d → ((c == 58) ≡ false) × ((leb 65 c && leb c 90) ≡ false)
unfolding hex_digit
hex_digit-plain c h = ground arith

abbrev power : ℕ → ℕ
power zero = 1
power (suc n) = 16 * power n

step : (amount d p n : ℕ) → d < 16 → n < (amount * 16 + d + 1) * p → n < (amount + 1) * (16 * p)
step amount d p n h k = grind arith

hex_number-cons :
    (amount c : ℕ) (cs : List ℕ) {n : ℕ}
    → hex_number amount (c ∷ cs) ≡ some n
    → (d : ℕ) × (hex_digit c ≡ some d) × (hex_number (amount * 16 + d) cs ≡ some n)
unfolding hex_number
hex_number-cons amount c cs h = elim (Option-cases (hex_digit c)) [
  | inl bad ↦ let e = rw (bad, hex_number) at h in cc
  | inr (d, good) ↦ (d, good, rw (good, hex_number) at h)
]

hex_number-lt :
    (amount : ℕ) (text : List ℕ) {n : ℕ}
    → hex_number amount text ≡ some n
    → n < (amount + 1) * power (length text)
unfolding hex_number
hex_number-lt amount [] h = ground arith
hex_number-lt amount (c ∷ cs) {n} h =
    let (d, digit, rest) = hex_number-cons amount c cs h in
    step amount d (power (length cs)) n (hex_digit-lt c digit)
      (hex_number-lt (amount * 16 + d) cs rest)

hex_number-plain :
    (amount : ℕ) (text : List ℕ) {n : ℕ}
    → hex_number amount text ≡ some n
    → Without 58 text × (to_lower text ≡ text)
unfolding to_lower
hex_number-plain amount [] h = (tt, refl)
hex_number-plain amount (c ∷ cs) h =
    let (d, digit, rest) = hex_number-cons amount c cs h in
    let (plain, lower) = hex_number-plain (amount * 16 + d) cs rest in
    let (no_colon, no_upper) = hex_digit-plain c digit in
    ((no_colon, plain), rw no_upper (ap (λ l. c ∷ l) lower))

-- What `hextet` accepts: a text of `[0-9a-f]`, not empty, for a number of 16 bits.
pub record IsHextet (text : List ℕ) (n : ℕ) : Type 0 where
  pub present : 1 ≤ length text
  pub plain : Without 58 text
  pub lower : to_lower text ≡ text
  pub within : n < 65536

four_digits : (text : List ℕ) → length text ≤ 4 → power (length text) ≤ 65536
four_digits [] h = omega arith
four_digits (a ∷ []) h = omega arith
four_digits (a ∷ b ∷ []) h = omega arith
four_digits (a ∷ b ∷ c ∷ []) h = omega arith
four_digits (a ∷ b ∷ c ∷ d ∷ []) h = omega arith
four_digits (a ∷ b ∷ c ∷ d ∷ e ∷ text) h = absurd (omega arith)

guarded :
    (p q : Bool) (o : Option ℕ) {n : ℕ}
    → (if p && q then o else none) ≡ some n
    → (p ≡ true) × (q ≡ true) × (o ≡ some n)
guarded p q o h = ground arith

hextet-IsHextet : (text : List ℕ) {n : ℕ} → hextet text ≡ some n → IsHextet text n
unfolding hextet
hextet-IsHextet text {n} h =
    let (some_units, few, number) =
      guarded (leb 1 (length text)) (leb (length text) 4) (hex_number 0 text) h in
    let (plain, lower) = hex_number-plain 0 text number in
    record {
      present = leb→le 1 (length text) some_units;
      plain = plain;
      lower = lower;
      within =
          omega (arith, hex_number-lt 0 text number, four_digits text (leb→le (length text) 4 few));
    }

to_lower-append : (xs ys : List ℕ) → to_lower (xs ++ ys) ≡ to_lower xs ++ to_lower ys
unfolding to_lower
to_lower-append [] ys = refl
to_lower-append (x ∷ xs) ys = ap (λ l. lower_unit x ∷ l) (to_lower-append xs ys)

-- The bytes of a value below 2 ^ 32 give it back.
value_bytes :
    (v : ℕ)
    → v < 2 ^ 32
    → address (v / 2 ^ 24 % 256) (v / 2 ^ 16 % 256) (v / 2 ^ 8 % 256) (v % 256) ≡ v
value_bytes v h = omega arith

dotted_value-blocks : (v : ℕ) → v < 2 ^ 32 → is_private_v4 (dotted_value v) ≡ in_reserved_block v
unfolding dotted_value
dotted_value-blocks v h =
    is_private_v4-blocks (v / 2 ^ 24 % 256) (v / 2 ^ 16 % 256) (v / 2 ^ 8 % 256) (v % 256)
      (omega arith) (omega arith) (omega arith) (omega arith)
    ∙ ap in_reserved_block (value_bytes v h)

join_halves_lem :
    (high low : ℕ) → high < 65536 → low < 65536 → join_halves high low ≡ high * 65536 + low
unfolding join_halves
join_halves_lem high low h l = omega arith

not_ipv4 : (f : IpFamily) → f ≢ IpFamily.ipv4 → is_ipv4 f ≡ false
not_ipv4 IpFamily.not_ip h = refl
not_ipv4 IpFamily.ipv4 h = absurd (h refl)
not_ipv4 IpFamily.ipv6 h = refl

module _ (tail : List ℕ) where
  mapped_text-lower :
      to_lower tail ≡ tail → to_lower (mapped_prefix ++ tail) ≡ mapped_prefix ++ tail
  unfolding to_lower
  mapped_text-lower h = ap (λ l. mapped_prefix ++ l) h

  mapped_text-reserved_v6 : reserved_v6 (mapped_prefix ++ tail) ≡ false
  unfolding reserved_v6 same_codes has_prefix
  mapped_text-reserved_v6 = refl

  mapped_suffix-mapped_text : mapped_suffix (mapped_prefix ++ tail) ≡ some tail
  unfolding mapped_suffix has_prefix
  mapped_suffix-mapped_text = refl

tail-lower :
    (high low : List ℕ)
    → to_lower high ≡ high
    → to_lower low ≡ low
    → to_lower (high ++ (58 ∷ low)) ≡ high ++ (58 ∷ low)
unfolding to_lower
tail-lower high low h l =
    to_lower-append high (58 ∷ low)
    ∙ ap (λ t. t ++ (58 ∷ to_lower low)) h
    ∙ ap (λ t. high ++ (58 ∷ t)) l

from_hextets-split :
    (high_text low_text : List ℕ) (high low : ℕ)
    → hextet high_text ≡ some high
    → hextet low_text ≡ some low
    → from_hextets (split 58 (high_text ++ (58 ∷ low_text)))
      ≡ some (dotted_value (join_halves high low))
unfolding from_hextets
from_hextets-split high_text low_text high low hh hl =
    ap from_hextets (
      split-append 58 high_text low_text (hextet-IsHextet high_text hh).plain
      ∙ ap (λ l. high_text ∷ l) (split-nil 58 low_text (hextet-IsHextet low_text hl).plain))
    ∙ rw (hh, from_hextets) (rw hl refl)

module _ (is_ip : List ℕ → IpFamily) where
  dotted_value-ipv4 :
      (v : ℕ)
      → ((a b c d : ℕ)
          → IsByte a
          → IsByte b
          → IsByte c
          → IsByte d
          → is_ip (dotted a b c d) ≡ IpFamily.ipv4)
      → is_ip (dotted_value v) ≡ IpFamily.ipv4
  unfolding dotted_value
  dotted_value-ipv4 v dots =
      dots (v / 2 ^ 24 % 256) (v / 2 ^ 16 % 256) (v / 2 ^ 8 % 256) (v % 256) (omega arith)
        (omega arith) (omega arith) (omega arith)

  from_suffix :
      (text suffix : List ℕ)
      → mapped_suffix (to_lower text) ≡ some suffix
      → 1 ≤ length suffix
      → is_ip suffix ≢ IpFamily.ipv4
      → ipv4_from_mapped_ipv6 is_ip text ≡ from_hextets (split 58 suffix)
  unfolding ipv4_from_mapped_ipv6
  from_suffix text [] e h n = absurd (omega arith)
  from_suffix text (c ∷ cs) e h n =
      rw (e, ipv4_from_mapped_ipv6) (rw (not_ipv4 (is_ip (c ∷ cs)) n) refl)

  -- `::ffff:` and two hextets is an address of family 6, its end is no address of family 4, and four
  -- bytes with dots are one: then the mapped address is private or reserved exactly if the IPv4
  -- address with these 32 bits is in a reserved block.
  pub mapped-blocks :
      (high_text low_text : List ℕ) (high low : ℕ)
      → hextet high_text ≡ some high
      → hextet low_text ≡ some low
      → is_ip (mapped_prefix ++ (high_text ++ (58 ∷ low_text))) ≡ IpFamily.ipv6
      → is_ip (high_text ++ (58 ∷ low_text)) ≢ IpFamily.ipv4
      → ((a b c d : ℕ)
          → IsByte a
          → IsByte b
          → IsByte c
          → IsByte d
          → is_ip (dotted a b c d) ≡ IpFamily.ipv4)
      → is_private_or_reserved_ip is_ip (mapped_prefix ++ (high_text ++ (58 ∷ low_text)))
        ≡ some (in_reserved_block (high * 65536 + low))
  unfolding is_private_or_reserved_ip private_calls
  mapped-blocks high_text low_text high low hh hl six four dots =
      let h = hextet-IsHextet high_text hh in
      let l = hextet-IsHextet low_text hl in
      let tail = high_text ++ (58 ∷ low_text) in
      let text = mapped_prefix ++ tail in
      let v = join_halves high low in
      let lower : to_lower text ≡ text =
        mapped_text-lower tail (tail-lower high_text low_text h.lower l.lower) in
      let mapped : ipv4_from_mapped_ipv6 is_ip text ≡ some (dotted_value v) =
        from_suffix text tail (ap mapped_suffix lower ∙ mapped_suffix-mapped_text tail)
          (omega (arith, h.present, length-append high_text (58 ∷ low_text))) four
        ∙ from_hextets-split high_text low_text high low hh hl in
      rw (six, private_calls)
        (rw lower (
          rw (mapped_text-reserved_v6 tail) (
            rw mapped (
              rw (dotted_value-ipv4 v dots, private_calls)
                (ap some (
                  dotted_value-blocks v
                    (omega (arith, join_halves_lem high low h.within l.within, h.within, l.within))
                  ∙ ap in_reserved_block (join_halves_lem high low h.within l.within)))))))
