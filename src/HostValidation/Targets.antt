-- ===== src/HostValidation/Targets.antt =====
-- apps/api/src/host-validation.ts: the checks of an IMAP and of an SMTP target.
pub mod Accepted
pub mod Allowed
mod Tests
use supamail.Common.{
  ℕ, ◌≤◌, ◌<◌, ◌≡◌, ◌≢◌, ◌↔◌, ◌⊎◌, inl, inr, refl, ◌∙◌, Bool, true, false, not, ◌&&◌, ◌||◌, Option,
  none, some, List, [], ◌∷◌, All, length, ltb, leb, leb→le, ltb→lt, ◌==◌, ==_iff, Bool-cases,
  Option-cases, sym, ap, subst, Outcome, ok, throw, throw_if, ok-injective, ◌>>=◌, ◌>>◌,
  if◌then◌else◌, arith,
}
use supamail.Common.Text.{codes, same_codes}
use supamail.HostValidation.{IpFamily, HostValidationError, to_lower, is_private_or_reserved_ip}

abbrev pub Checked {ℓ} : Type ℓ → Type ℓ
Checked A = Outcome HostValidationError A

abbrev pub is_literal : IpFamily → Bool
is_literal IpFamily.not_ip = false
is_literal _ = true

abbrev pub or_true : Option Bool → Bool
or_true none = true
or_true (some b) = b

abbrev pub is_localhost : List ℕ → Bool
is_localhost host = same_codes (to_lower host) (codes "localhost")

-- What the three checks share: the texts of their errors differ.
unfoldable pub assert_host_and_port : List ℕ → ℕ → Checked (Unit {0})
assert_host_and_port host port =
    throw_if (length host == 0 || ltb 255 (length host)) HostValidationError.invalid_host
    >> throw_if (ltb port 1 || ltb 65535 port) HostValidationError.invalid_port

module _ (is_ip : List ℕ → IpFamily) where
  -- `isPrivateOrReservedIp`; a further nested call, which does not happen, would count as private.
  unfoldable pub is_private : List ℕ → Bool
  is_private ip = or_true (is_private_or_reserved_ip is_ip ip)

  unfoldable pub check_addresses : List (List ℕ) → Checked (Unit {0})
  check_addresses [] = ok tt
  check_addresses (address ∷ addresses) =
      let rest = check_addresses addresses in
      if is_private address then throw HostValidationError.private_host_denied else rest

  -- `lookup` is the answer of the DNS: none for a rejection.
  unfoldable pub assert_host_resolves_publicly : Option (List (List ℕ)) → Checked (Unit {0})
  assert_host_resolves_publicly none = throw HostValidationError.dns_lookup_failed
  assert_host_resolves_publicly (some []) = throw HostValidationError.dns_no_records
  assert_host_resolves_publicly (some (address ∷ addresses)) = check_addresses (address ∷ addresses)

  -- What follows the checks of host, port and TLS in `assertSafeImapTarget`.
  unfoldable pub assert_imap_host : List ℕ → Bool → Option (List (List ℕ)) → Checked (Unit {0})
  assert_imap_host host allow_private lookup =
      if is_localhost host
      then throw_if (not allow_private) HostValidationError.private_host_denied
      else if is_literal (is_ip host)
      then throw_if (is_private host && not allow_private) HostValidationError.private_host_denied
      else if allow_private
      then ok tt
      else assert_host_resolves_publicly lookup

  unfoldable pub assert_safe_imap_target :
      List ℕ → ℕ → Bool → Bool → Option (List (List ℕ)) → Checked (Unit {0})
  assert_safe_imap_target host port secure allow_private lookup =
      assert_host_and_port host port
      >> (throw_if (not allow_private && not (port == 143 || port == 993))
            HostValidationError.invalid_port
          >> (throw_if (not secure && not allow_private) HostValidationError.tls_required
              >> assert_imap_host host allow_private lookup))

  -- What follows the checks of host and port in `assertSafeSmtpTarget`: `isPrivateHost`.
  unfoldable pub assert_smtp_host : List ℕ → Bool → Option (List (List ℕ)) → Checked Bool
  assert_smtp_host host allow_private lookup =
      if is_localhost host
      then throw_if (not allow_private) HostValidationError.private_host_denied >> ok true
      else if is_literal (is_ip host)
      then (throw_if (is_private host && not allow_private) HostValidationError.private_host_denied
          >> ok (is_private host))
      else if allow_private
      then ok false
      else assert_host_resolves_publicly lookup >> ok false

  unfoldable pub assert_safe_smtp_target : List ℕ → ℕ → Bool → Option (List (List ℕ)) → Checked Bool
  assert_safe_smtp_target host port allow_private lookup =
      assert_host_and_port host port
      >> (throw_if (not allow_private && not (port == 25 || port == 465 || port == 587))
            HostValidationError.invalid_port
          >> assert_smtp_host host allow_private lookup)

  -- The lookup answered with addresses, and none is private.
  abbrev pub Resolves : Option (List (List ℕ)) → Type 0
  Resolves lookup =
      (addresses : List (List ℕ)) × (lookup ≡ some addresses)
      × (addresses ≢ [])
      × All (λ address. is_private address ≡ false) addresses

  -- A host that may be connected to where private hosts are not allowed.
  abbrev pub IsPublic : List ℕ → Option (List (List ℕ)) → Type 0
  IsPublic host lookup =
      (is_localhost host ≡ false)
      × (((is_literal (is_ip host) ≡ true) × (is_private host ≡ false))
          ⊎ ((is_literal (is_ip host) ≡ false) × Resolves lookup))
