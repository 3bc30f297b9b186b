-- ===== src/HostValidation/Targets/Allowed.antt =====
-- Which targets the two checks accept, by the addresses that are denied.
use supamail.Common.{
  ℕ, ◌≡◌, ◌≢◌, ◌↔◌, ◌⊎◌, inl, inr, Bool, true, false, Option, some, List, [], All, All-map, ok,
}
use supamail.HostValidation.{IpFamily}
use supamail.HostValidation.Denied.{ReadsDotted, IsDenied}
use supamail.HostValidation.Classified.{is_private-false}
use supamail.HostValidation.Targets.{
  is_literal, is_localhost, assert_safe_imap_target, assert_safe_smtp_target, IsPublic,
}
use supamail.HostValidation.Targets.Accepted.{
  assert_safe_imap_target-IsPublic, assert_safe_smtp_target-IsPublic, IsShort,
}

module _ (is_ip : List ℕ → IpFamily) where
  -- The lookup answered with at least one address, and none is denied.
  abbrev pub ResolvesAllowed : Option (List (List ℕ)) → Type 0
  ResolvesAllowed lookup =
      (addresses : List (List ℕ)) × (lookup ≡ some addresses)
      × (addresses ≢ [])
      × All (λ address. ¬ IsDenied is_ip address) addresses

  -- Not localhost, and an address that is not denied or a name whose addresses are not.
  abbrev pub IsAllowed : List ℕ → Option (List (List ℕ)) → Type 0
  IsAllowed host lookup =
      (is_localhost host ≡ false)
      × (((is_literal (is_ip host) ≡ true) × (¬ IsDenied is_ip host))
          ⊎ ((is_literal (is_ip host) ≡ false) × ResolvesAllowed lookup))

  module _ (reads : ReadsDotted is_ip) where
    IsPublic-iff :
        (host : List ℕ) (lookup : Option (List (List ℕ)))
        → IsPublic is_ip host lookup ↔ IsAllowed host lookup
    IsPublic-iff host lookup = (
      λ (local, h). (
        local,
        elim h [
          | inl (literal, public) ↦ inl (literal, (is_private-false is_ip reads host).0 public)
          | inr (name, (addresses, e, n, all)) ↦ inr (
            name,
            (addresses, e, n, All-map _ _ addresses (λ a. (is_private-false is_ip reads a).0) all),
          )
        ],
      ),
      λ (local, h). (
        local,
        elim h [
          | inl (literal, allowed) ↦ inl (literal, (is_private-false is_ip reads host).1 allowed)
          | inr (name, (addresses, e, n, all)) ↦ inr (
            name,
            (addresses, e, n, All-map _ _ addresses (λ a. (is_private-false is_ip reads a).1) all),
          )
        ],
      ),
    )

    -- With `isIP` answering 4 exactly for four decimal bytes with dots, and where private hosts
    -- are not allowed, `assertSafeImapTarget` accepts a target exactly if: the host has 1 to 255
    -- units, the port is 143 or 993, the connection is secure, the host is not localhost, and it
    -- is an address that is not denied, or a name that resolves to at least one address and to
    -- none that is denied. Denied are the IPv4 addresses in the blocks 0/8, 10/8, 100.64/10,
    -- 127/8, 169.254/16, 172.16/12, 192.168/16, 224/4 and 240/4, the IPv6 addresses whose text in
    -- lower case is `::` or `::1` or starts with fc, fd, fe8, fe9, fea, feb or ff, and those that
    -- `ipv4FromMappedIpv6` reads as an IPv4 address in these blocks. An IPv6 address with any
    -- other text is not denied.
    pub assert_safe_imap_target_iff :
        (host : List ℕ) (port : ℕ) (secure : Bool) (lookup : Option (List (List ℕ)))
        → (assert_safe_imap_target is_ip host port secure false lookup ≡ ok tt)
          ↔ (IsShort host × ((port ≡ 143) ⊎ (port ≡ 993)) × (secure ≡ true) × IsAllowed host lookup)
    assert_safe_imap_target_iff host port secure lookup =
        let spec = assert_safe_imap_target-IsPublic is_ip host port secure lookup in
        let public = IsPublic-iff host lookup in
        (
          λ e. let (short, ports, tls, h) = spec.0 e in (short, ports, tls, public.0 h),
          λ (short, ports, tls, h). spec.1 (short, ports, tls, public.1 h),
        )

    -- With `isIP` answering 4 exactly for four decimal bytes with dots, and where private hosts
    -- are not allowed, `assertSafeSmtpTarget` accepts a target exactly if the host has 1 to 255
    -- units, the port is 25, 465 or 587, and the host is not localhost and is an address that is
    -- not denied, or a name that resolves to at least one address and to none that is denied, in
    -- the sense of the IMAP check; it then returns false: the host is not taken as private.
    pub assert_safe_smtp_target_iff :
        (host : List ℕ) (port : ℕ) (lookup : Option (List (List ℕ))) (b : Bool)
        → (assert_safe_smtp_target is_ip host port false lookup ≡ ok b) ↔ (
            IsShort host
            × ((port ≡ 25) ⊎ (port ≡ 465) ⊎ (port ≡ 587))
            × (b ≡ false)
            × IsAllowed host lookup)
    assert_safe_smtp_target_iff host port lookup b =
        let spec = assert_safe_smtp_target-IsPublic is_ip host port lookup b in
        let public = IsPublic-iff host lookup in
        (
          λ e. let (short, ports, closed, h) = spec.0 e in (short, ports, closed, public.0 h),
          λ (short, ports, closed, h). spec.1 (short, ports, closed, public.1 h),
        )
