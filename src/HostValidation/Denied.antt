-- ===== src/HostValidation/Denied.antt =====
-- The addresses that `isPrivateOrReservedIp` denies, in the notation of the address registries where
-- it has one, and by how their text starts where the code reads only the text.
use supamail.Common.{
  ℕ, ◌≡◌, ◌↔◌, ◌⊎◌, inl, inr, refl, sym, ap, ◌∙◌, subst, Bool, true, false, ◌||◌, some, List, [],
  ◌∷◌, ◌++◌, ◌==◌, ==_iff, Bool-cases, arith,
}
use supamail.Common.Text.{codes, same_codes, same_codes_iff}
use supamail.HostValidation.{
  IpFamily, has_prefix, to_lower, dotted, reserved_v6, ipv4_from_mapped_ipv6,
}
use supamail.HostValidation.Digits.{IsByte}
use supamail.HostValidation.Blocks.{address, in_reserved_block}

-- Four bytes in decimal, with dots.
abbrev pub IsDotted : List ℕ → Type 0
IsDotted text =
    (a : ℕ) × (b : ℕ) × (c : ℕ) × (d : ℕ) × IsByte a
    × IsByte b
    × IsByte c
    × IsByte d
    × (text ≡ dotted a b c d)

-- An IPv4 address in one of the reserved blocks.
abbrev pub InBlocks : List ℕ → Type 0
InBlocks text =
    (a : ℕ) × (b : ℕ) × (c : ℕ) × (d : ℕ) × IsByte a
    × IsByte b
    × IsByte c
    × IsByte d
    × (text ≡ dotted a b c d)
    × (in_reserved_block (address a b c d) ≡ true)

abbrev pub StartsWith : List ℕ → List ℕ → Type 0
StartsWith prefix text = (rest : List ℕ) × (text ≡ prefix ++ rest)

-- The texts of IPv6 addresses that are denied as they stand.
abbrev pub IsReservedText : List ℕ → Type 0
IsReservedText lower =
    (lower ≡ codes "::")
    ⊎ (lower ≡ codes "::1")
    ⊎ StartsWith (codes "fc") lower
    ⊎ StartsWith (codes "fd") lower
    ⊎ StartsWith (codes "fe8") lower
    ⊎ StartsWith (codes "fe9") lower
    ⊎ StartsWith (codes "fea") lower
    ⊎ StartsWith (codes "feb") lower
    ⊎ StartsWith (codes "ff") lower

-- The documented answer of `isIP`: 4 exactly for four decimal bytes with dots.
abbrev pub ReadsDotted : (List ℕ → IpFamily) → Type 0
ReadsDotted is_ip = (text : List ℕ) → (is_ip text ≡ IpFamily.ipv4) ↔ IsDotted text

-- A denied address: an IPv4 address in a reserved block, an IPv6 address with a reserved text, or
-- one that `ipv4FromMappedIpv6` reads as an IPv4 address in a reserved block.
pub data IsDenied (is_ip : List ℕ → IpFamily) (text : List ℕ) : Type 0 where
  in_block : InBlocks text → IsDenied is_ip text
  by_text : is_ip text ≡ IpFamily.ipv6 → IsReservedText (to_lower text) → IsDenied is_ip text
  by_mapping :
      is_ip text ≡ IpFamily.ipv6
      → (mapped : List ℕ) → ipv4_from_mapped_ipv6 is_ip (to_lower text) ≡ some mapped
      → InBlocks mapped
      → IsDenied is_ip text

has_prefix_iff : (prefix text : List ℕ) → (has_prefix prefix text ≡ true) ↔ StartsWith prefix text
unfolding has_prefix
has_prefix_iff [] text = (λ e. (text, refl), λ h. refl)
has_prefix_iff (p ∷ ps) [] = (λ e. cc, λ h. let (rest, e) = h in cc)
has_prefix_iff (p ∷ ps) (c ∷ cs) = elim (Bool-cases (p == c)) [
  | inl same ↦ rw same (
    λ e.
        let (rest, f) = (has_prefix_iff ps cs).0 e in
        let g = (==_iff p c).0 same in (rest, ap (λ x. x ∷ cs) (sym g) ∙ ap (λ t. p ∷ t) f),
    λ h. let (rest, e) = h in let f : cs ≡ ps ++ rest = cc in (has_prefix_iff ps cs).1 (rest, f),
  )
  | inr other ↦
      rw other
        (λ e. cc, λ h. let (rest, e) = h in let g : p ≡ c = cc in let f = (==_iff p c).1 g in cc)
]

or_iff : {P Q : Type 0} (a b : Bool) → (a ≡ true) ↔ P → (b ≡ true) ↔ Q → ((a || b) ≡ true) ↔ (P ⊎ Q)
or_iff true b h k = (λ e. inl (h.0 refl), λ e. refl)
or_iff false b h k =
    (λ e. inr (k.0 e), λ e. elim e [ inl p ↦ absurd (not_true (h.1 p)) | inr q ↦ k.1 q ])
  where
    not_true : ◌≡◌ {A = Bool} false true → ⊥
    not_true e = cc

-- A test that the next one holds already.
or_absorb :
    {Q : Type 0} (a b : Bool) → ((a ≡ true) → b ≡ true) → (b ≡ true) ↔ Q → ((a || b) ≡ true) ↔ Q
or_absorb true b h k = (λ e. k.0 (h refl), λ q. refl)
or_absorb false b h k = k

-- The tests in the order of the code, read from the right.
reserved_v6-nested :
    (lower : List ℕ)
    → reserved_v6 lower ≡ (
        same_codes lower (codes "::")
        || (same_codes lower (codes "::1")
            || (has_prefix (codes "fc") lower
                || (has_prefix (codes "fd") lower
                    || (has_prefix (codes "fe80:") lower
                        || (has_prefix (codes "fe8") lower
                            || (has_prefix (codes "fe9") lower
                                || (has_prefix (codes "fea") lower
                                    || (has_prefix (codes "feb") lower
                                        || has_prefix (codes "ff") lower)))))))))
unfolding reserved_v6
reserved_v6-nested lower =
    nested (same_codes lower (codes "::")) (same_codes lower (codes "::1"))
      (has_prefix (codes "fc") lower) (has_prefix (codes "fd") lower)
      (has_prefix (codes "fe80:") lower) (has_prefix (codes "fe8") lower)
      (has_prefix (codes "fe9") lower) (has_prefix (codes "fea") lower)
      (has_prefix (codes "feb") lower) (has_prefix (codes "ff") lower)
  where
    nested :
        (a b c d e f g h i j : Bool)
        → (a || b || c || d || e || f || g || h || i || j)
          ≡ (a || (b || (c || (d || (e || (f || (g || (h || (i || j)))))))))
    nested a b c d e f g h i j = ground arith

link_local :
    (lower : List ℕ)
    → has_prefix (codes "fe80:") lower ≡ true
    → has_prefix (codes "fe8") lower ≡ true
link_local lower e =
    let (rest, f) = (has_prefix_iff (codes "fe80:") lower).0 e in
    (has_prefix_iff (codes "fe8") lower).1 (codes "0:" ++ rest, f)

pub reserved_v6_iff : (lower : List ℕ) → (reserved_v6 lower ≡ true) ↔ IsReservedText lower
reserved_v6_iff lower =
    subst (λ b. (b ≡ true) ↔ IsReservedText lower) (sym (reserved_v6-nested lower))
      (or_iff _ _ (same_codes_iff lower (codes "::")) (
        or_iff _ _ (same_codes_iff lower (codes "::1")) (
          or_iff _ _ (has_prefix_iff (codes "fc") lower) (
            or_iff _ _ (has_prefix_iff (codes "fd") lower) (
              or_absorb (has_prefix (codes "fe80:") lower) _ (λ e. rw (link_local lower e) refl)
                (or_iff _ _ (has_prefix_iff (codes "fe8") lower) (
                  or_iff _ _ (has_prefix_iff (codes "fe9") lower) (
                    or_iff _ _ (has_prefix_iff (codes "fea") lower) (
                      or_iff _ _ (has_prefix_iff (codes "feb") lower)
                        (has_prefix_iff (codes "ff") lower))))))))))
