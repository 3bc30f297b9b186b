-- ===== src/HostValidation/Classified.antt =====
-- `isPrivateOrReservedIp` is true exactly for the denied addresses.
use supamail.Common.{
  ℕ, ◌≡◌, ◌≢◌, ◌↔◌, ◌⊎◌, inl, inr, refl, sym, ap, ◌∙◌, subst, true, false, Option, none, some, List,
  [], ◌∷◌, Bool-cases, Option-cases, if◌then◌else◌, arith, ◌%◌, ◌/◌, ◌^◌,
}
use supamail.HostValidation.{
  IpFamily, to_lower, dotted_value, from_hextets, hextet, join_halves, is_private_v4, reserved_v6,
  is_ipv4, mapped_suffix, split, ipv4_from_mapped_ipv6, private_calls, is_private_or_reserved_ip,
}
use supamail.HostValidation.Blocks.{is_private_v4-blocks}
use supamail.HostValidation.Targets.{is_private}
use supamail.HostValidation.Denied.{
  IsDotted, InBlocks, ReadsDotted, IsDenied, in_block, by_text, by_mapping, reserved_v6_iff,
}

-- An IPv4 address is private exactly if it is in a reserved block.
is_private_v4_iff : (text : List ℕ) → IsDotted text → (is_private_v4 text ≡ true) ↔ InBlocks text
is_private_v4_iff text (a, b, c, d, ha, hb, hc, hd, same) = (
  λ e. (
    a,
    b,
    c,
    d,
    ha,
    hb,
    hc,
    hd,
    same,
    sym (is_private_v4-blocks a b c d ha hb hc hd) ∙ ap is_private_v4 (sym same) ∙ e,
  ),
  inside,
)
  where
    inside : InBlocks text → is_private_v4 text ≡ true
    inside (a, b, c, d, ha, hb, hc, hd, same, reserved) =
        ap is_private_v4 same ∙ is_private_v4-blocks a b c d ha hb hc hd ∙ reserved

IsDotted-of_blocks : (text : List ℕ) → InBlocks text → IsDotted text
IsDotted-of_blocks text (a, b, c, d, ha, hb, hc, hd, same, reserved) =
    (a, b, c, d, ha, hb, hc, hd, same)

dotted_value-IsDotted : (value : ℕ) → IsDotted (dotted_value value)
unfolding dotted_value
dotted_value-IsDotted value = (
  value / 2 ^ 24 % 256,
  value / 2 ^ 16 % 256,
  value / 2 ^ 8 % 256,
  value % 256,
  omega arith,
  omega arith,
  omega arith,
  omega arith,
  refl,
)

from_hextets-IsDotted :
    (pieces : List (List ℕ)) (mapped : List ℕ) → from_hextets pieces ≡ some mapped → IsDotted mapped
unfolding from_hextets
from_hextets-IsDotted [] mapped e = cc
from_hextets-IsDotted (high ∷ []) mapped e = cc
from_hextets-IsDotted (high ∷ low ∷ more ∷ pieces) mapped e = cc
from_hextets-IsDotted (high ∷ low ∷ []) mapped e = elim (Option-cases (hextet high)) [
  | inl bad ↦ let f = rw (bad, from_hextets) at e in cc
  | inr (h, good) ↦ elim (Option-cases (hextet low)) [
    | inl bad ↦ let f = rw (good, from_hextets, bad) at e in cc
    | inr (l, good') ↦
        let f = rw (good, from_hextets, good') at e in
        let same : dotted_value (join_halves h l) ≡ mapped = cc in
        subst IsDotted same (dotted_value-IsDotted (join_halves h l))
  ]
]

family_cases : (f : IpFamily) → (f ≡ IpFamily.not_ip) ⊎ ((f ≡ IpFamily.ipv4) ⊎ (f ≡ IpFamily.ipv6))
family_cases IpFamily.not_ip = inl refl
family_cases IpFamily.ipv4 = inr (inl refl)
family_cases IpFamily.ipv6 = inr (inr refl)

is_ipv4-ipv4 : (f : IpFamily) → is_ipv4 f ≡ true → f ≡ IpFamily.ipv4
is_ipv4-ipv4 IpFamily.ipv4 e = refl
is_ipv4-ipv4 IpFamily.not_ip e = cc
is_ipv4-ipv4 IpFamily.ipv6 e = cc

module _ (is_ip : List ℕ → IpFamily) (reads : ReadsDotted is_ip) where
  mapped-IsDotted :
      (lower mapped : List ℕ) → ipv4_from_mapped_ipv6 is_ip lower ≡ some mapped → IsDotted mapped
  unfolding ipv4_from_mapped_ipv6
  mapped-IsDotted lower mapped e = by_suffix (mapped_suffix (to_lower lower)) e
    where
      by_suffix :
          (suffix : Option (List ℕ))
          → (elim suffix [
            | none ↦ none
            | some [] ↦ none
            | some (c ∷ cs) ↦
                if is_ipv4 (is_ip (c ∷ cs)) then some (c ∷ cs) else from_hextets (split 58 (c ∷ cs))
          ])
            ≡ some mapped
          → IsDotted mapped
      by_suffix none e = cc
      by_suffix (some []) e = cc
      by_suffix (some (c ∷ cs)) e = elim (Bool-cases (is_ipv4 (is_ip (c ∷ cs)))) [
        | inl four ↦
            let f = rw four at e in
            let same : c ∷ cs ≡ mapped = cc in
            subst IsDotted same ((reads (c ∷ cs)).0 (is_ipv4-ipv4 (is_ip (c ∷ cs)) four))
        | inr other ↦ from_hextets-IsDotted (split 58 (c ∷ cs)) mapped (rw other at e)
      ]

  not_ipv4 : (text : List ℕ) (f : IpFamily) → is_ip text ≡ f → f ≢ IpFamily.ipv4 → ¬ InBlocks text
  not_ipv4 text f e ne inside = ne (sym e ∙ (reads text).1 (IsDotted-of_blocks text inside))

  -- The branches of `isPrivateOrReservedIp`.
  no_address : (text : List ℕ) → is_ip text ≡ IpFamily.not_ip → is_private is_ip text ≡ false
  unfolding is_private is_private_or_reserved_ip private_calls
  no_address text e = rw (e, private_calls) refl

  family_4 :
      (text : List ℕ) → is_ip text ≡ IpFamily.ipv4 → is_private is_ip text ≡ is_private_v4 text
  unfolding is_private is_private_or_reserved_ip private_calls
  family_4 text e = rw (e, private_calls) refl

  family_6-reserved :
      (text : List ℕ)
      → is_ip text ≡ IpFamily.ipv6
      → reserved_v6 (to_lower text) ≡ true
      → is_private is_ip text ≡ true
  unfolding is_private is_private_or_reserved_ip private_calls
  family_6-reserved text e r = rw (e, private_calls, r) refl

  family_6-unmapped :
      (text : List ℕ)
      → is_ip text ≡ IpFamily.ipv6
      → reserved_v6 (to_lower text) ≡ false
      → ipv4_from_mapped_ipv6 is_ip (to_lower text) ≡ none
      → is_private is_ip text ≡ false
  unfolding is_private is_private_or_reserved_ip private_calls
  family_6-unmapped text e r m = rw (e, private_calls, r, m) refl

  family_6-mapped :
      (text mapped : List ℕ)
      → is_ip text ≡ IpFamily.ipv6
      → reserved_v6 (to_lower text) ≡ false
      → ipv4_from_mapped_ipv6 is_ip (to_lower text) ≡ some mapped
      → is_private is_ip text ≡ is_private_v4 mapped
  unfolding is_private is_private_or_reserved_ip private_calls
  family_6-mapped text mapped e r m =
      rw (e, private_calls, r, m)
        (rw ((reads mapped).1 (mapped-IsDotted (to_lower text) mapped m), private_calls) refl)

  -- Which case a denied address is in.
  IsDenied-not_6 :
      (text : List ℕ) → is_ip text ≢ IpFamily.ipv6 → IsDenied is_ip text → InBlocks text
  IsDenied-not_6 text ne (in_block inside) = inside
  IsDenied-not_6 text ne (by_text six r) = absurd (ne six)
  IsDenied-not_6 text ne (by_mapping six mapped m inside) = absurd (ne six)

  IsDenied-6 :
      (text : List ℕ)
      → is_ip text ≡ IpFamily.ipv6
      → reserved_v6 (to_lower text) ≡ false
      → IsDenied is_ip text
      → (mapped : List ℕ) × (ipv4_from_mapped_ipv6 is_ip (to_lower text) ≡ some mapped)
        × InBlocks mapped
  IsDenied-6 text six free (in_block inside) =
      absurd (not_ipv4 text IpFamily.ipv6 six (λ e. cc) inside)
  IsDenied-6 text six free (by_text _ r) =
      let reserved = (reserved_v6_iff (to_lower text)).1 r in absurd cc
  IsDenied-6 text six free (by_mapping _ mapped m inside) = (mapped, m, inside)

  family_6_iff :
      (text : List ℕ)
      → is_ip text ≡ IpFamily.ipv6
      → (is_private is_ip text ≡ true) ↔ IsDenied is_ip text
  family_6_iff text six = elim (Bool-cases (reserved_v6 (to_lower text))) [
    | inl reserved ↦ (
      λ e. by_text six ((reserved_v6_iff (to_lower text)).0 reserved),
      λ h. family_6-reserved text six reserved,
    )
    | inr free ↦ elim (Option-cases (ipv4_from_mapped_ipv6 is_ip (to_lower text))) [
      | inl unmapped ↦ (
        λ e. let f = family_6-unmapped text six free unmapped in absurd cc,
        λ h. let (mapped, m, inside) = IsDenied-6 text six free h in absurd cc,
      )
      | inr (mapped, m) ↦
          let value = family_6-mapped text mapped six free m in
          let v4 = is_private_v4_iff mapped (mapped-IsDotted (to_lower text) mapped m) in
          (
            λ e. by_mapping six mapped m (v4.0 (sym value ∙ e)),
            λ h.
                let (other, m', inside) = IsDenied-6 text six free h in
                let same : other ≡ mapped = cc in value ∙ v4.1 (subst InBlocks same inside),
          )
    ]
  ]

  -- `isPrivateOrReservedIp` is true exactly for the denied addresses.
  pub is_private_iff : (text : List ℕ) → (is_private is_ip text ≡ true) ↔ IsDenied is_ip text
  is_private_iff text = elim (family_cases (is_ip text)) [
    | inl no_ip ↦
        let value = no_address text no_ip in
        (
          λ e. absurd cc,
          λ h.
              absurd
                (not_ipv4 text IpFamily.not_ip no_ip (λ e. cc) (IsDenied-not_6 text (λ e. cc) h)),
        )
    | inr (inl four) ↦
        let value = family_4 text four in
        let v4 = is_private_v4_iff text ((reads text).0 four) in
        (λ e. in_block (v4.0 (sym value ∙ e)), λ h. value ∙ v4.1 (IsDenied-not_6 text (λ e. cc) h))
    | inr (inr six) ↦ family_6_iff text six
  ]

  pub is_private-false : (text : List ℕ) → (is_private is_ip text ≡ false) ↔ ¬ IsDenied is_ip text
  is_private-false text = elim (Bool-cases (is_private is_ip text)) [
    | inl private ↦ (λ e. absurd cc, λ h. absurd (h ((is_private_iff text).0 private)))
    | inr allowed ↦ (λ e denied. let p = (is_private_iff text).1 denied in cc, λ h. allowed)
  ]
