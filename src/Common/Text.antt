-- ===== src/Common/Text.antt =====
-- Text as code points, and the white space of JavaScript's `trim` and `\s`.
use Prim.Native.Nat.{ℕ}
use Prim.Native.Char.{code}
use Prim.Native.String.{String}
use mathlib.Core.Bool.{Bool, true, false, ◌||◌, ◌&&◌}
use mathlib.Core.Logic.{◌↔◌}
use mathlib.Core.Path.{◌≡◌, refl}
use native.Mathlib.Omega.{arith}
use mathlib.Core.List.{List, [], ◌∷◌}
use supamail.Common.Tests.{leb, ◌==◌}

abbrev pub codes : String → List ℕ
codes String.[] = []
codes (String.◌∷◌ c s) = code c ∷ codes s

unfoldable pub is_space : ℕ → Bool
is_space c =
    (leb 9 c && leb c 13)
    || c == 32
    || c == 160
    || c == 5760
    || (leb 8192 c && leb c 8202)
    || c == 8232
    || c == 8233
    || c == 8239
    || c == 8287
    || c == 12288
    || c == 65279

-- `s.trim() === ""`
unfoldable pub is_blank : List ℕ → Bool
unfolding is_space
is_blank [] = true
is_blank (c ∷ cs) = is_space c && is_blank cs

-- `s.startsWith(c)` and `s.endsWith(c)` for a text of one unit.
abbrev pub starts_with : ℕ → List ℕ → Bool
starts_with unit [] = false
starts_with unit (c ∷ cs) = c == unit

abbrev pub ends_with : ℕ → List ℕ → Bool
ends_with unit [] = false
ends_with unit (c ∷ []) = c == unit
ends_with unit (c ∷ d ∷ ds) = ends_with unit (d ∷ ds)

-- `left === right`
unfoldable pub same_codes : List ℕ → List ℕ → Bool
same_codes [] [] = true
same_codes (x ∷ xs) (y ∷ ys) = x == y && same_codes xs ys
same_codes _ _ = false

pub same_codes_iff : (xs ys : List ℕ) → (same_codes xs ys ≡ true) ↔ (xs ≡ ys)
unfolding same_codes
same_codes_iff [] [] = (λ _. refl, λ _. refl)
same_codes_iff [] (y ∷ ys) = (λ e. cc, λ e. cc)
same_codes_iff (x ∷ xs) [] = (λ e. cc, λ e. cc)
same_codes_iff (x ∷ xs) (y ∷ ys) = ground (arith, same_codes_iff xs ys)
