-- ===== src/HostValidation/Targets/Tests.antt =====
-- Runs of the two checks with an `isIP` that reads dotted addresses, and their theorems at these inputs.
use supamail.Common.{
  ℕ, ◌≡◌, ◌↔◌, ◌⊎◌, refl, sym, subst, Bool, true, false, ◌&&◌, Option, none, some, List, [], ◌∷◌,
  ◌==◌, if◌then◌else◌, ok, throw, arith, ltb, lt→ltb, Bool-cases, inl, inr,
}
use supamail.Common.Text.{codes, same_codes, same_codes_iff}
use supamail.HostValidation.{
  IpFamily, HostValidationError, split, has_prefix, to_lower, number_of, hex_digit, hex_number,
  hextet, decimal, dotted, join_halves, dotted_value, all_zeros, every_zeros, mapped_suffix,
  from_hextets, any_bad, reserved_pair, is_private_v4, reserved_v6, ipv4_from_mapped_ipv6,
  private_calls, is_private_or_reserved_ip,
}
use supamail.HostValidation.Digits.{IsByte, number_of-decimal, split-dotted}
use supamail.HostValidation.Denied.{IsDotted, ReadsDotted}
use supamail.HostValidation.Targets.{
  assert_host_and_port, is_private, check_addresses, assert_host_resolves_publicly,
  assert_imap_host, assert_safe_imap_target, assert_smtp_host, assert_safe_smtp_target,
}
use supamail.HostValidation.Targets.Accepted.{IsShort}
use supamail.HostValidation.Targets.Allowed.{
  IsAllowed, assert_safe_imap_target_iff, assert_safe_smtp_target_iff,
}

has_colon : List ℕ → Bool
has_colon [] = false
has_colon (c ∷ cs) = if c == 58 then true else has_colon cs

are_bytes : Option ℕ → Option ℕ → Option ℕ → Option ℕ → List ℕ → Bool
are_bytes (some a) (some b) (some c) (some d) text =
    ltb a 256 && ltb b 256 && ltb c 256 && ltb d 256 && same_codes text (dotted a b c d)
are_bytes _ _ _ _ text = false

are_dotted : List (List ℕ) → List ℕ → Bool
are_dotted (p ∷ q ∷ r ∷ s ∷ []) text =
    are_bytes (number_of 0 p) (number_of 0 q) (number_of 0 r) (number_of 0 s) text
are_dotted _ text = false

abbrev strict_is_ip : List ℕ → IpFamily
strict_is_ip text =
    if are_dotted (split 46 text) text
    then IpFamily.ipv4
    else if has_colon text
    then IpFamily.ipv6
    else IpFamily.not_ip

are_bytes-IsDotted :
    (a b c d : Option ℕ) (text : List ℕ) → are_bytes a b c d text ≡ true → IsDotted text
unfolding are_bytes
are_bytes-IsDotted (some a) (some b) (some c) (some d) text e =
    let (ha, hb, hc, hd, same) = parts e in
    (a, b, c, d, ha, hb, hc, hd, (same_codes_iff text (dotted a b c d)).0 same)
  where
    parts :
        (ltb a 256 && ltb b 256 && ltb c 256 && ltb d 256 && same_codes text (dotted a b c d))
          ≡ true
        → IsByte a × IsByte b × IsByte c × IsByte d × (same_codes text (dotted a b c d) ≡ true)
    parts e = ground arith
are_bytes-IsDotted none b c d text e = cc
are_bytes-IsDotted (some a) none c d text e = cc
are_bytes-IsDotted (some a) (some b) none d text e = cc
are_bytes-IsDotted (some a) (some b) (some c) none text e = cc

are_dotted-IsDotted :
    (pieces : List (List ℕ)) (text : List ℕ) → are_dotted pieces text ≡ true → IsDotted text
unfolding are_dotted
are_dotted-IsDotted [] text e = cc
are_dotted-IsDotted (p ∷ []) text e = cc
are_dotted-IsDotted (p ∷ q ∷ []) text e = cc
are_dotted-IsDotted (p ∷ q ∷ r ∷ []) text e = cc
are_dotted-IsDotted (p ∷ q ∷ r ∷ s ∷ []) text e =
    are_bytes-IsDotted (number_of 0 p) (number_of 0 q) (number_of 0 r) (number_of 0 s) text e
are_dotted-IsDotted (p ∷ q ∷ r ∷ s ∷ t ∷ pieces) text e = cc

are_dotted-dotted :
    (a b c d : ℕ)
    → IsByte a
    → IsByte b
    → IsByte c
    → IsByte d
    → are_dotted (split 46 (dotted a b c d)) (dotted a b c d) ≡ true
unfolding are_dotted are_bytes
are_dotted-dotted a b c d ha hb hc hd = simp (
  split-dotted a b c d ha hb hc hd,
  number_of-decimal a ha,
  number_of-decimal b hb,
  number_of-decimal c hc,
  number_of-decimal d hd,
  lt→ltb a 256 ha,
  lt→ltb b 256 hb,
  lt→ltb c 256 hc,
  lt→ltb d 256 hd,
  (same_codes_iff (dotted a b c d) (dotted a b c d)).1 refl,
)

strict_is_ip-ReadsDotted : ReadsDotted strict_is_ip
strict_is_ip-ReadsDotted text = (read, known)
  where
    read : strict_is_ip text ≡ IpFamily.ipv4 → IsDotted text
    read e = elim (Bool-cases (are_dotted (split 46 text) text)) [
      | inl found ↦ are_dotted-IsDotted (split 46 text) text found
      | inr other ↦ elim (Bool-cases (has_colon text)) [
        | inl colon ↦ let f = rw (other, colon) at e in absurd cc
        | inr plain ↦ let f = rw (other, plain) at e in absurd cc
      ]
    ]

    known : IsDotted text → strict_is_ip text ≡ IpFamily.ipv4
    known (a, b, c, d, ha, hb, hc, hd, e) =
        subst (λ t. strict_is_ip t ≡ IpFamily.ipv4) (sym e)
          (rw (are_dotted-dotted a b c d ha hb hc hd) refl)

ready : Unit {0}
unfolding same_codes split has_prefix to_lower number_of hex_digit hex_number hextet decimal dotted
    join_halves dotted_value all_zeros every_zeros mapped_suffix from_hextets any_bad reserved_pair
    is_private_v4 reserved_v6 ipv4_from_mapped_ipv6 private_calls is_private_or_reserved_ip
    is_private check_addresses assert_host_resolves_publicly assert_host_and_port assert_imap_host
    assert_safe_imap_target assert_smtp_host assert_safe_smtp_target has_colon are_bytes are_dotted
ready = tt

abbrev host : List ℕ
host = codes "imap.example.com"

abbrev lookup : Option (List (List ℕ))
lookup = some (codes "93.184.216.34" ∷ [])

accepted : assert_safe_imap_target strict_is_ip host 993 true false lookup ≡ ok tt
unfolding ready
accepted = refl

metadata_refused :
    assert_safe_imap_target strict_is_ip host 993 true false
      (some (codes "93.184.216.34" ∷ codes "169.254.169.254" ∷ []))
    ≡ throw HostValidationError.private_host_denied
unfolding ready
metadata_refused = refl

-- Loopback in full is accepted.
loopback_accepted :
    assert_safe_imap_target strict_is_ip (codes "0:0:0:0:0:0:0:1") 993 true false none ≡ ok tt
unfolding ready
loopback_accepted = refl

assert_safe_imap_target_iff_example :
    (assert_safe_imap_target strict_is_ip host 993 true false lookup ≡ ok tt) ↔ (
      IsShort host
      × ((◌≡◌ {A = ℕ} 993 143) ⊎ (◌≡◌ {A = ℕ} 993 993))
      × (true ≡ true)
      × IsAllowed strict_is_ip host lookup)
assert_safe_imap_target_iff_example =
    assert_safe_imap_target_iff strict_is_ip strict_is_ip-ReadsDotted host 993 true lookup

assert_safe_smtp_target_iff_example :
    (assert_safe_smtp_target strict_is_ip host 587 false lookup ≡ ok false) ↔ (
      IsShort host
      × ((◌≡◌ {A = ℕ} 587 25) ⊎ (◌≡◌ {A = ℕ} 587 465) ⊎ (◌≡◌ {A = ℕ} 587 587))
      × (false ≡ false)
      × IsAllowed strict_is_ip host lookup)
assert_safe_smtp_target_iff_example =
    assert_safe_smtp_target_iff strict_is_ip strict_is_ip-ReadsDotted host 587 lookup false
