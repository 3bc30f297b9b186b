-- ===== src/HostValidation.antt =====
-- apps/api/src/host-validation.ts: which hosts the server may connect to. Texts are code units. `is_ip`
-- is `isIP` of node:net; the answer of the DNS lookup is an argument. An error is its code; the
-- messages, which repeat the host, are not in the model.
pub mod Digits
pub mod Blocks
pub mod Mapped
pub mod Targets
pub mod Denied
pub mod Classified
mod Tests
use supamail.Common.{
  ℕ, zero, suc, ◌+◌, ◌-◌, ◌*◌, ◌/◌, ◌%◌, ◌^◌, Bool, true, false, not, ◌&&◌, ◌||◌, Option, none,
  some, List, [], ◌∷◌, ◌++◌, length, drop, take, ltb, leb, ◌==◌, Outcome, ok, throw, if◌then◌else◌,
}
use supamail.Common.Text.{codes, same_codes}

pub data IpFamily : Type 0 where
  not_ip ipv4 ipv6 : IpFamily

pub data HostValidationError : Type 0 where
  invalid_host invalid_port tls_required private_host_denied : HostValidationError
  dns_lookup_failed dns_no_records : HostValidationError

-- `text.split(separator)` for a separator of one unit.
unfoldable pub split : ℕ → List ℕ → List (List ℕ)
split separator [] = [] ∷ []
split separator (c ∷ cs) = elim (split separator cs) [
  | [] ↦ []
  | piece ∷ pieces ↦ if c == separator then [] ∷ piece ∷ pieces else (c ∷ piece) ∷ pieces
]

-- `text.startsWith(prefix)`
unfoldable pub has_prefix : List ℕ → List ℕ → Bool
has_prefix [] text = true
has_prefix (p ∷ ps) [] = false
has_prefix (p ∷ ps) (c ∷ cs) = p == c && has_prefix ps cs

abbrev pub lower_unit : ℕ → ℕ
lower_unit c = if leb 65 c && leb c 90 then c + 32 else c

-- `toLowerCase` of a host. Other letters that have a lower case do not stand in an address.
unfoldable pub to_lower : List ℕ → List ℕ
to_lower [] = []
to_lower (c ∷ cs) = lower_unit c ∷ to_lower cs

-- `Number(part)` where `part` is digits; none for a text that is not, which in an address of family 4
-- is not met.
unfoldable pub number_of : ℕ → List ℕ → Option ℕ
number_of amount [] = some amount
number_of amount (c ∷ cs) =
    let rest = number_of (amount * 10 + (c - 48)) cs in if leb 48 c && leb c 57 then rest else none

-- The value of a unit of `[0-9a-f]`.
unfoldable pub hex_digit : ℕ → Option ℕ
hex_digit c =
    if leb 48 c && leb c 57
    then some (c - 48)
    else if leb 97 c && leb c 102
    then some (c - 87)
    else none

unfoldable pub hex_number : ℕ → List ℕ → Option ℕ
hex_number amount [] = some amount
hex_number amount (c ∷ cs) = elim (hex_digit c) [
  | none ↦ none
  | some d ↦ hex_number (amount * 16 + d) cs
]

-- `/^[0-9a-f]{1,4}$/`, with `Number.parseInt(text, 16)`.
unfoldable pub hextet : List ℕ → Option ℕ
hextet text = if leb 1 (length text) && leb (length text) 4 then hex_number 0 text else none

-- A number below 1000 in decimal.
unfoldable pub decimal : ℕ → List ℕ
decimal n =
    if ltb n 10
    then (48 + n) ∷ []
    else if ltb n 100
    then (48 + n / 10) ∷ (48 + n % 10) ∷ []
    else (48 + n / 100) ∷ (48 + n / 10 % 10) ∷ (48 + n % 10) ∷ []

-- `[a, b, c, d].join(".")`
unfoldable pub dotted : ℕ → ℕ → ℕ → ℕ → List ℕ
dotted a b c d = decimal a ++ (46 ∷ (decimal b ++ (46 ∷ (decimal c ++ (46 ∷ decimal d)))))

-- `((high << 16) | low) >>> 0`: the low half has 16 bits, so that `|` adds it.
unfoldable pub join_halves : ℕ → ℕ → ℕ
join_halves high low = high * 2 ^ 16 % 2 ^ 32 + low

-- The bytes of a 32-bit value: `(value >>> 24) & 0xff` and so on.
unfoldable pub dotted_value : ℕ → List ℕ
dotted_value value =
    dotted (value / 2 ^ 24 % 256) (value / 2 ^ 16 % 256) (value / 2 ^ 8 % 256) (value % 256)

-- `/^[0]+$/`
unfoldable pub all_zeros : List ℕ → Bool
all_zeros [] = true
all_zeros (c ∷ cs) = c == 48 && all_zeros cs

abbrev is_zeros : List ℕ → Bool
is_zeros part = leb 1 (length part) && all_zeros part

unfoldable pub every_zeros : List (List ℕ) → Bool
every_zeros [] = true
every_zeros (part ∷ parts) = is_zeros part && every_zeros parts

-- The suffix of a mapped address that is spelled out.
abbrev spelled_suffix : List (List ℕ) → Option (List ℕ)
spelled_suffix (mark ∷ low ∷ []) = if same_codes mark (codes "ffff") then some low else none
spelled_suffix (mark ∷ high ∷ low ∷ []) =
    if same_codes mark (codes "ffff") then some (high ++ 58 ∷ low) else none
spelled_suffix _ = none

abbrev pub mapped_prefix : List ℕ
mapped_prefix = codes "::ffff:"

unfoldable pub mapped_suffix : List ℕ → Option (List ℕ)
mapped_suffix lower =
    if has_prefix mapped_prefix lower
    then some (drop 7 lower)
    else if every_zeros (take 5 (split 58 lower))
    then spelled_suffix (drop 5 (split 58 lower))
    else none

-- `{value}` of two hextets.
unfoldable pub from_hextets : List (List ℕ) → Option (List ℕ)
from_hextets (high ∷ low ∷ []) = elim (hextet high) [
  | none ↦ none
  | some h ↦ elim (hextet low) [ none ↦ none | some l ↦ some (dotted_value (join_halves h l)) ]
]
from_hextets _ = none

-- The tests on the parts of an address of family 4.
abbrev bad_part : Option ℕ → Bool
bad_part none = true
bad_part (some n) = ltb 255 n

unfoldable pub any_bad : List (Option ℕ) → Bool
any_bad [] = false
any_bad (part ∷ parts) = bad_part part || any_bad parts

abbrev parts_of : List (List ℕ) → List (Option ℕ)
parts_of [] = []
parts_of (part ∷ parts) = number_of 0 part ∷ parts_of parts

unfoldable pub reserved_pair : ℕ → ℕ → Bool
reserved_pair a b =
    a == 10
    || a == 127
    || a == 0
    || (a == 169 && b == 254)
    || (a == 172 && leb 16 b && leb b 31)
    || (a == 192 && b == 168)
    || (a == 100 && leb 64 b && leb b 127)
    || leb 224 a

-- An address of family 4 has four parts; for a text of fewer the model gives false.
abbrev first_two : List (Option ℕ) → Bool
first_two (some a ∷ some b ∷ parts) = reserved_pair a b
first_two _ = false

unfoldable pub is_private_v4 : List ℕ → Bool
is_private_v4 ip =
    let parts = parts_of (split 46 ip) in if any_bad parts then true else first_two parts

-- The prefixes of family 6.
unfoldable pub reserved_v6 : List ℕ → Bool
reserved_v6 lower =
    same_codes lower (codes "::")
    || same_codes lower (codes "::1")
    || has_prefix (codes "fc") lower
    || has_prefix (codes "fd") lower
    || has_prefix (codes "fe80:") lower
    || has_prefix (codes "fe8") lower
    || has_prefix (codes "fe9") lower
    || has_prefix (codes "fea") lower
    || has_prefix (codes "feb") lower
    || has_prefix (codes "ff") lower

abbrev pub is_ipv4 : IpFamily → Bool
is_ipv4 IpFamily.ipv4 = true
is_ipv4 _ = false

module _ (is_ip : List ℕ → IpFamily) where
  unfoldable pub ipv4_from_mapped_ipv6 : List ℕ → Option (List ℕ)
  ipv4_from_mapped_ipv6 ip = elim (mapped_suffix (to_lower ip)) [
    | none ↦ none
    | some [] ↦ none
    | some (c ∷ cs) ↦
        if is_ipv4 (is_ip (c ∷ cs)) then some (c ∷ cs) else from_hextets (split 58 (c ∷ cs))
  ]

  -- `isPrivateOrReservedIp`: the call for a mapped address is made once, since it gets an address of
  -- family 4; none stands for a second one.
  unfoldable pub private_calls : ℕ → List ℕ → Option Bool
  private_calls zero ip = none
  private_calls (suc calls) ip = elim (is_ip ip) [
    | IpFamily.not_ip ↦ some false
    | IpFamily.ipv4 ↦ some (is_private_v4 ip)
    | IpFamily.ipv6 ↦
        if reserved_v6 (to_lower ip)
        then some true
        else elim (ipv4_from_mapped_ipv6 (to_lower ip)) [
          | none ↦ some false
          | some mapped ↦ private_calls calls mapped
        ]
  ]

  unfoldable pub is_private_or_reserved_ip : List ℕ → Option Bool
  is_private_or_reserved_ip ip = private_calls 2 ip
