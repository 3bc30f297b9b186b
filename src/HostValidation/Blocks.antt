-- ===== src/HostValidation/Blocks.antt =====
-- The tests on an address of family 4, against the reserved blocks in the notation of their registry.
use supamail.Common.{ℕ, ◌+◌, ◌*◌, ◌/◌, ◌^◌, ◌≡◌, Bool, ◌||◌, le→ltb_false, ◌==◌, arith}
use supamail.HostValidation.{dotted, any_bad, reserved_pair, is_private_v4}
use supamail.HostValidation.Digits.{IsByte, number_of-decimal, split-dotted}

-- The 32-bit value of an address.
abbrev pub address : ℕ → ℕ → ℕ → ℕ → ℕ
address a b c d = ((a * 256 + b) * 256 + c) * 256 + d

-- A block `base/length`, as the base and the number of free bits, 32 - length.
abbrev pub in_block : ℕ → ℕ → ℕ → Bool
in_block value base free = value / 2 ^ free == base / 2 ^ free

-- 0.0.0.0/8, 10.0.0.0/8, 100.64.0.0/10, 127.0.0.0/8, 169.254.0.0/16, 172.16.0.0/12, 192.168.0.0/16,
-- 224.0.0.0/4 and 240.0.0.0/4.
pub in_reserved_block : ℕ → Bool
in_reserved_block v =
    in_block v (address 0 0 0 0) 24
    || in_block v (address 10 0 0 0) 24
    || in_block v (address 100 64 0 0) 22
    || in_block v (address 127 0 0 0) 24
    || in_block v (address 169 254 0 0) 16
    || in_block v (address 172 16 0 0) 20
    || in_block v (address 192 168 0 0) 16
    || in_block v (address 224 0 0 0) 28
    || in_block v (address 240 0 0 0) 28

module _ (a b c d : ℕ) (ha : IsByte a) (hb : IsByte b) (hc : IsByte c) (hd : IsByte d) where
  free_24 : address a b c d / 2 ^ 24 ≡ a
  free_24 = omega arith

  free_16 : address a b c d / 2 ^ 16 ≡ a * 256 + b
  free_16 = omega arith

  free_20 : address a b c d / 2 ^ 20 ≡ a * 16 + b / 16
  free_20 = omega arith

  free_22 : address a b c d / 2 ^ 22 ≡ a * 4 + b / 64
  free_22 = omega arith

  free_28 : address a b c d / 2 ^ 28 ≡ a / 16
  free_28 = omega arith

  reserved_pair-blocks : reserved_pair a b ≡ in_reserved_block (address a b c d)
  unfolding reserved_pair in_reserved_block
  reserved_pair-blocks =
      rw (free_24) (rw free_16 (rw free_20 (rw free_22 (rw free_28 (ground arith)))))

  -- `isPrivateOrReservedIp` on a dotted address of family 4: it is true exactly in the reserved blocks.
  pub is_private_v4-blocks : is_private_v4 (dotted a b c d) ≡ in_reserved_block (address a b c d)
  unfolding is_private_v4 any_bad
  is_private_v4-blocks = simp (
    split-dotted a b c d ha hb hc hd,
    number_of-decimal a ha,
    number_of-decimal b hb,
    number_of-decimal c hc,
    number_of-decimal d hd,
    le→ltb_false 255 a (omega arith),
    le→ltb_false 255 b (omega arith),
    le→ltb_false 255 c (omega arith),
    le→ltb_false 255 d (omega arith),
    reserved_pair-blocks,
  )
