-- ===== src/HostValidation/Tests.antt =====
-- Runs of the host checks, and their theorems at these inputs.
use supamail.Common.{
  ℕ, ◌+◌, ◌*◌, ◌≡◌, ◌≢◌, ◌⊎◌, refl, Bool, true, false, none, some, List, [], ◌∷◌, ◌++◌, ◌==◌,
  if◌then◌else◌, ok, arith, ltb,
}
use supamail.Common.Text.{codes, same_codes}
use supamail.HostValidation.{
  IpFamily, split, has_prefix, to_lower, number_of, hex_digit, hex_number, hextet, decimal, dotted,
  join_halves, dotted_value, all_zeros, every_zeros, mapped_prefix, mapped_suffix, from_hextets,
  any_bad, reserved_pair, is_private_v4, reserved_v6, ipv4_from_mapped_ipv6, private_calls,
  is_private_or_reserved_ip,
}
use supamail.HostValidation.Digits.{IsByte}
use supamail.HostValidation.Blocks.{address, in_reserved_block, is_private_v4-blocks}
use supamail.HostValidation.Mapped.{mapped-blocks}
use supamail.HostValidation.Targets.{
  is_localhost, is_literal, assert_host_and_port, is_private, check_addresses,
  assert_host_resolves_publicly, assert_imap_host, assert_safe_imap_target, assert_smtp_host,
  assert_safe_smtp_target,
}
use supamail.HostValidation.Targets.Accepted.{assert_safe_smtp_target-private}

has_colon : List ℕ → Bool
has_colon [] = false
has_colon (c ∷ cs) = if c == 58 then true else has_colon cs

has_digit_first : List ℕ → Bool
has_digit_first [] = false
has_digit_first (c ∷ cs) = if ltb 47 c then ltb c 58 else false

-- A text with a colon is of family 6, one that starts with a digit of family 4.
abbrev example_is_ip : List ℕ → IpFamily
example_is_ip text =
    if has_colon text
    then IpFamily.ipv6
    else if has_digit_first text
    then IpFamily.ipv4
    else IpFamily.not_ip

ready : Unit {0}
unfolding same_codes split has_prefix to_lower number_of hex_digit hex_number hextet decimal dotted
    join_halves dotted_value all_zeros every_zeros mapped_suffix from_hextets any_bad reserved_pair
    is_private_v4 reserved_v6 ipv4_from_mapped_ipv6 private_calls is_private_or_reserved_ip
    is_private check_addresses assert_host_resolves_publicly assert_host_and_port assert_imap_host
    assert_safe_imap_target assert_smtp_host assert_safe_smtp_target has_colon has_digit_first
ready = tt

loopback : is_private_or_reserved_ip example_is_ip (codes "::1") ≡ some true
unfolding ready
loopback = refl

-- The same address in full is not recognised.
loopback_in_full : is_private_or_reserved_ip example_is_ip (codes "0:0:0:0:0:0:0:1") ≡ some false
unfolding ready
loopback_in_full = refl

mapped_in_full :
    is_private_or_reserved_ip example_is_ip (codes "0:0:0:0:0:FFFF:192.168.1.1") ≡ some true
unfolding ready
mapped_in_full = refl

is_private_v4-blocks_example :
    is_private_v4 (dotted 172 31 0 9) ≡ in_reserved_block (address 172 31 0 9)
is_private_v4-blocks_example =
    is_private_v4-blocks 172 31 0 9 (omega arith) (omega arith) (omega arith) (omega arith)

no_colon-append :
    (xs ys : List ℕ) → has_colon xs ≡ false → has_colon (xs ++ (46 ∷ ys)) ≡ has_colon ys
unfolding has_colon
no_colon-append [] ys h = refl
no_colon-append (x ∷ xs) ys h = ground (arith, no_colon-append xs ys)

no_colon-decimal : (n : ℕ) → IsByte n → has_colon (decimal n) ≡ false
unfolding has_colon decimal
no_colon-decimal n h = ground arith

digit-dotted : (a : ℕ) (rest : List ℕ) → IsByte a → has_digit_first (decimal a ++ rest) ≡ true
unfolding has_digit_first decimal
digit-dotted a rest h = ground arith

example_dotted :
    (a b c d : ℕ)
    → IsByte a
    → IsByte b
    → IsByte c
    → IsByte d
    → example_is_ip (dotted a b c d) ≡ IpFamily.ipv4
unfolding dotted
example_dotted a b c d ha hb hc hd =
    rw
      (no_colon-append (decimal a) (decimal b ++ (46 ∷ (decimal c ++ (46 ∷ decimal d))))
        (no_colon-decimal a ha))
      (rw (no_colon-append (decimal b) (decimal c ++ (46 ∷ decimal d)) (no_colon-decimal b hb)) (
        rw (no_colon-append (decimal c) (decimal d) (no_colon-decimal c hc)) (
          rw (no_colon-decimal d hd) (
            rw (digit-dotted a (46 ∷ (decimal b ++ (46 ∷ (decimal c ++ (46 ∷ decimal d))))) ha)
              refl))))

seven_f : hextet (codes "7f00") ≡ some 32512
unfolding ready
seven_f = refl

one : hextet (codes "1") ≡ some 1
unfolding ready
one = refl

six : example_is_ip (mapped_prefix ++ (codes "7f00" ++ (58 ∷ codes "1"))) ≡ IpFamily.ipv6
unfolding ready
six = refl

not_four : example_is_ip (codes "7f00" ++ (58 ∷ codes "1")) ≢ IpFamily.ipv4
unfolding ready
not_four e = cc

mapped-blocks_example :
    is_private_or_reserved_ip example_is_ip (mapped_prefix ++ (codes "7f00" ++ (58 ∷ codes "1")))
    ≡ some (in_reserved_block (32512 * 65536 + 1))
mapped-blocks_example =
    mapped-blocks example_is_ip (codes "7f00") (codes "1") 32512 1 seven_f one six not_four
      example_dotted

local_target : assert_safe_smtp_target example_is_ip (codes "10.0.0.5") 25 true none ≡ ok true
unfolding ready
local_target = refl

assert_safe_smtp_target-private_example :
    (true ≡ true)
    × ((is_localhost (codes "10.0.0.5") ≡ true)
        ⊎ ((is_literal (example_is_ip (codes "10.0.0.5")) ≡ true)
            × (is_private example_is_ip (codes "10.0.0.5") ≡ true)))
assert_safe_smtp_target-private_example =
    assert_safe_smtp_target-private example_is_ip (codes "10.0.0.5") 25 true none local_target
