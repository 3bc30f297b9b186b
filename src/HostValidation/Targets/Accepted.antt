-- ===== src/HostValidation/Targets/Accepted.antt =====
-- Which targets the two checks accept.
use supamail.Common.{
  ℕ, ◌≤◌, ◌≡◌, ◌↔◌, ◌⊎◌, inl, inr, refl, Bool, true, false, not, ◌&&◌, ◌||◌, Option, none, some,
  List, [], ◌∷◌, All, length, ltb, ◌==◌, sym, ap, subst, ok, throw, throw_if, ok-injective, ◌>>◌,
  if◌then◌else◌, arith,
}
use supamail.HostValidation.{IpFamily, HostValidationError}
use supamail.HostValidation.Targets.{
  Checked, is_literal, is_localhost, assert_host_and_port, is_private, check_addresses,
  assert_host_resolves_publicly, assert_imap_host, assert_safe_imap_target, assert_smtp_host,
  assert_safe_smtp_target, Resolves, IsPublic,
}

false-true : ◌≡◌ {A = Bool} false true → ⊥
false-true e = cc

thrown : {error : HostValidationError} → ◌≡◌ {A = Checked (Unit {0})} (throw error) (ok tt) → ⊥
thrown e = cc

some-injective : {A : Type 0} {x y : A} → ◌≡◌ {A = Option A} (some x) (some y) → x ≡ y
some-injective e = cc

-- A test that throws, in a chain.
pub throw_if-ok {ℓ} :
    {A : Type ℓ} (test : Bool) (error : HostValidationError) (rest : Checked A) (result : A)
    → ((throw_if test error >> rest) ≡ ok result) ↔ ((test ≡ false) × (rest ≡ ok result))
throw_if-ok true error rest result = (λ e. cc, λ h. cc)
throw_if-ok false error rest result = (λ e. (refl, e), λ h. h.1)

-- The branches of the two checks of a host, for any answers of their tests.
abbrev Public : Bool → Bool → Bool → Type 0 → Type 0
Public local literal private Resolved =
    (local ≡ false) × (((literal ≡ true) × (private ≡ false)) ⊎ ((literal ≡ false) × Resolved))

abbrev refused : HostValidationError
refused = HostValidationError.private_host_denied

imap_cases :
    {Resolved : Type 0} (local literal private : Bool) (resolved : Checked (Unit {0}))
    → (resolved ≡ ok tt) ↔ Resolved
    → ((if local
          then throw_if true refused
          else if literal
          then throw_if (private && true) refused
          else if false
          then ok tt
          else resolved)
        ≡ ok tt)
      ↔ Public local literal private Resolved
imap_cases true literal private resolved h = (λ e. cc, λ (p, q). cc)
imap_cases false true true resolved h =
    (λ e. cc, λ (p, q). elim q [ inl (a, b) ↦ cc | inr (a, b) ↦ cc ])
imap_cases false true false resolved h = (λ e. (refl, inl (refl, refl)), λ k. refl)
imap_cases false false private resolved h = (
  λ e. (refl, inr (refl, h.0 e)),
  λ (p, q). elim q [ inl (a, b) ↦ absurd (false-true a) | inr (a, b) ↦ h.1 b ],
)

smtp_cases :
    {Resolved : Type 0} (local literal private : Bool) (resolved : Checked (Unit {0})) (b : Bool)
    → (resolved ≡ ok tt) ↔ Resolved
    → ((if local
          then throw_if true refused >> ok true
          else if literal
          then throw_if (private && true) refused >> ok private
          else if false
          then ok false
          else resolved >> ok false)
        ≡ ok b)
      ↔ ((b ≡ false) × Public local literal private Resolved)
smtp_cases true literal private resolved b h = (λ e. cc, λ (o, (p, q)). cc)
smtp_cases false true true resolved b h =
    (λ e. cc, λ (o, (p, q)). elim q [ inl (a, c) ↦ cc | inr (a, c) ↦ cc ])
smtp_cases false true false resolved b h =
    (λ e. (sym (ok-injective e), (refl, inl (refl, refl))), λ k. ap ok (sym k.0))
smtp_cases false false private (throw error) b h = (
  λ e. cc,
  λ (o, (p, q)). elim q [
    | inl (a, c) ↦ absurd (false-true a)
    | inr (a, c) ↦ absurd (thrown (h.1 c))
  ],
)
smtp_cases false false private (ok done) b h =
    (λ e. (sym (ok-injective e), (refl, inr (refl, h.0 refl))), λ k. ap ok (sym k.0))

private_cases :
    (local literal private allow : Bool) (resolved : Checked (Unit {0}))
    → (if local
        then throw_if (not allow) refused >> ok true
        else if literal
        then throw_if (private && not allow) refused >> ok private
        else if allow
        then ok false
        else resolved >> ok false)
      ≡ ok true
    → (allow ≡ true) × ((local ≡ true) ⊎ ((literal ≡ true) × (private ≡ true)))
private_cases true literal private true resolved e = (refl, inl refl)
private_cases true literal private false resolved e = cc
private_cases false true true true resolved e = (refl, inr (refl, refl))
private_cases false true true false resolved e = cc
private_cases false true false allow resolved e = absurd (false-true (ok-injective e))
private_cases false false private true resolved e = absurd (false-true (ok-injective e))
private_cases false false private false (ok done) e = absurd (false-true (ok-injective e))
private_cases false false private false (throw error) e = cc

short_iff : (n : ℕ) → ((n == 0 || ltb 255 n) ≡ false) ↔ ((1 ≤ n) × (n ≤ 255))
short_iff n = ground arith

secure_iff : (secure : Bool) → ((not secure && true) ≡ false) ↔ (secure ≡ true)
secure_iff secure = ground arith

imap_port_iff :
    (port : ℕ)
    → ((true && not (port == 143 || port == 993)) ≡ false) ↔ ((port ≡ 143) ⊎ (port ≡ 993))
imap_port_iff port = ground arith

imap_port-range : (port : ℕ) → (port ≡ 143) ⊎ (port ≡ 993) → (ltb port 1 || ltb 65535 port) ≡ false
imap_port-range port h = ground arith

smtp_port_iff :
    (port : ℕ)
    → ((true && not (port == 25 || port == 465 || port == 587)) ≡ false)
      ↔ ((port ≡ 25) ⊎ (port ≡ 465) ⊎ (port ≡ 587))
smtp_port_iff port = ground arith

smtp_port-range :
    (port : ℕ) → (port ≡ 25) ⊎ (port ≡ 465) ⊎ (port ≡ 587) → (ltb port 1 || ltb 65535 port) ≡ false
smtp_port-range port h = ground arith

two_throws-ok {ℓ} :
    {A : Type ℓ} (p q : Bool) (e f : HostValidationError) (rest : Checked A) (result : A)
    → (((throw_if p e >> throw_if q f) >> rest) ≡ ok result)
      ↔ ((p ≡ false) × (q ≡ false) × (rest ≡ ok result))
two_throws-ok true q e f rest result = (λ k. cc, λ (a, b, c). cc)
two_throws-ok false true e f rest result = (λ k. cc, λ (a, b, c). cc)
two_throws-ok false false e f rest result = (λ k. (refl, refl, k), λ k. k.2)

abbrev pub IsShort : List ℕ → Type 0
IsShort host = (1 ≤ length host) × (length host ≤ 255)

module _ (is_ip : List ℕ → IpFamily) where
  check_addresses_iff :
      (addresses : List (List ℕ))
      → (check_addresses is_ip addresses ≡ ok tt)
        ↔ All (λ address. is_private is_ip address ≡ false) addresses
  unfolding check_addresses
  check_addresses_iff [] = (λ e. tt, λ h. refl)
  check_addresses_iff (address ∷ addresses) = ground (arith, check_addresses_iff addresses)

  lookup_iff :
      (lookup : Option (List (List ℕ)))
      → (assert_host_resolves_publicly is_ip lookup ≡ ok tt) ↔ Resolves is_ip lookup
  unfolding assert_host_resolves_publicly
  lookup_iff none = (λ e. cc, λ (addresses, e, n, h). cc)
  lookup_iff (some []) = (λ e. cc, λ (addresses, e, n, h). absurd (n (cc)))
  lookup_iff (some (address ∷ addresses)) = (
    λ e. (address ∷ addresses, refl, λ n. cc, (check_addresses_iff (address ∷ addresses)).0 e),
    λ (found, e, n, h).
        (check_addresses_iff (address ∷ addresses)).1
          (subst (All (λ a. is_private is_ip a ≡ false)) (sym (some-injective e)) h),
  )

  imap_host_iff :
      (host : List ℕ) (lookup : Option (List (List ℕ)))
      → (assert_imap_host is_ip host false lookup ≡ ok tt) ↔ IsPublic is_ip host lookup
  unfolding assert_imap_host
  imap_host_iff host lookup =
      imap_cases (is_localhost host) (is_literal (is_ip host)) (is_private is_ip host)
        (assert_host_resolves_publicly is_ip lookup) (lookup_iff lookup)

  smtp_host_iff :
      (host : List ℕ) (lookup : Option (List (List ℕ))) (b : Bool)
      → (assert_smtp_host is_ip host false lookup ≡ ok b)
        ↔ ((b ≡ false) × IsPublic is_ip host lookup)
  unfolding assert_smtp_host
  smtp_host_iff host lookup b =
      smtp_cases (is_localhost host) (is_literal (is_ip host)) (is_private is_ip host)
        (assert_host_resolves_publicly is_ip lookup) b (lookup_iff lookup)

  -- What `assertSafeImapTarget` accepts, by the code's own test of an address.
  pub assert_safe_imap_target-IsPublic :
      (host : List ℕ) (port : ℕ) (secure : Bool) (lookup : Option (List (List ℕ)))
      → (assert_safe_imap_target is_ip host port secure false lookup ≡ ok tt) ↔ (
          IsShort host
          × ((port ≡ 143) ⊎ (port ≡ 993))
          × (secure ≡ true)
          × IsPublic is_ip host lookup)
  unfolding assert_safe_imap_target assert_host_and_port
  assert_safe_imap_target-IsPublic host port secure lookup = (
    λ e.
        let (length_ok, port_in_range, after) = (two_throws-ok _ _ _ _ _ _).0 e in
        let (port_ok, rest) = (throw_if-ok _ _ _ _).0 after in
        let (tls_ok, host_ok) = (throw_if-ok _ _ _ _).0 rest in
        (
          (short_iff (length host)).0 length_ok,
          (imap_port_iff port).0 port_ok,
          (secure_iff secure).0 tls_ok,
          (imap_host_iff host lookup).0 host_ok,
        ),
    λ (short, port_ok, tls, public). (two_throws-ok _ _ _ _ _ _).1 (
      (short_iff (length host)).1 short,
      imap_port-range port port_ok,
      (throw_if-ok _ _ _ _).1 (
        (imap_port_iff port).1 port_ok,
        (throw_if-ok _ _ _ _).1 ((secure_iff secure).1 tls, (imap_host_iff host lookup).1 public),
      ),
    ),
  )

  -- What `assertSafeSmtpTarget` accepts, by the same test.
  pub assert_safe_smtp_target-IsPublic :
      (host : List ℕ) (port : ℕ) (lookup : Option (List (List ℕ))) (b : Bool)
      → (assert_safe_smtp_target is_ip host port false lookup ≡ ok b) ↔ (
          IsShort host
          × ((port ≡ 25) ⊎ (port ≡ 465) ⊎ (port ≡ 587))
          × (b ≡ false)
          × IsPublic is_ip host lookup)
  unfolding assert_safe_smtp_target assert_host_and_port
  assert_safe_smtp_target-IsPublic host port lookup b = (
    λ e.
        let (length_ok, port_in_range, after) = (two_throws-ok _ _ _ _ _ _).0 e in
        let (port_ok, rest) = (throw_if-ok _ _ _ _).0 after in
        let (is_false, public) = (smtp_host_iff host lookup b).0 rest in
        ((short_iff (length host)).0 length_ok, (smtp_port_iff port).0 port_ok, is_false, public),
    λ (short, port_ok, is_false, public). (two_throws-ok _ _ _ _ _ _).1 (
      (short_iff (length host)).1 short,
      smtp_port-range port port_ok,
      (throw_if-ok _ _ _ _).1
          ((smtp_port_iff port).1 port_ok, (smtp_host_iff host lookup b).1 (is_false, public)),
    ),
  )

  -- A target is reported as private only for localhost and for an address that
  -- `isPrivateOrReservedIp` is true on, and only where private hosts are allowed.
  pub assert_safe_smtp_target-private :
      (host : List ℕ) (port : ℕ) (allow_private : Bool) (lookup : Option (List (List ℕ)))
      → assert_safe_smtp_target is_ip host port allow_private lookup ≡ ok true
      → (allow_private ≡ true)
        × ((is_localhost host ≡ true)
            ⊎ ((is_literal (is_ip host) ≡ true) × (is_private is_ip host ≡ true)))
  unfolding assert_safe_smtp_target assert_host_and_port assert_smtp_host
  assert_safe_smtp_target-private host port allow_private lookup e =
      let (length_ok, port_in_range, after) = (two_throws-ok _ _ _ _ _ _).0 e in
      let (port_ok, rest) = (throw_if-ok _ _ _ _).0 after in
      private_cases (is_localhost host) (is_literal (is_ip host)) (is_private is_ip host)
        allow_private (assert_host_resolves_publicly is_ip lookup) rest
