-- ===== src/Prelude/Words.antt =====
-- Unsigned 64-bit arithmetic as a release build of the program does it: wrapping, unless the source
-- says saturating.
use Prim.Native.Nat.{ℕ, zero, suc, ◌+◌, ◌-◌, ◌*◌, ◌/◌, ◌%◌, ◌^◌, ◌≤◌, ◌<◌, min}
use mathlib.Core.Path.{◌≡◌}
use mathlib.Core.List.{List, [], ◌∷◌}
use native.Mathlib.Omega.{arith}

abbrev pub u64_mod : ℕ
u64_mod = 2 ^ 64

abbrev pub u64_max : ℕ
u64_max = 2 ^ 64 - 1

abbrev pub add64 : ℕ → ℕ → ℕ
add64 a b = (a + b) % u64_mod

abbrev pub sub64 : ℕ → ℕ → ℕ
sub64 a b = (a + u64_mod - b) % u64_mod

abbrev pub mul64 : ℕ → ℕ → ℕ
mul64 a b = (a * b) % u64_mod

abbrev pub saturating_add : ℕ → ℕ → ℕ
saturating_add a b = min (a + b) u64_max

-- `saturating_sub` is the truncated subtraction of ℕ.
abbrev pub saturating_sub : ℕ → ℕ → ℕ
saturating_sub a b = a - b

-- `n.to_le_bytes()` for a word of `w` bytes.
unfoldable pub le_bytes : ℕ → ℕ → List ℕ
le_bytes zero n = []
le_bytes (suc w) n = (n % 256) ∷ le_bytes w (n / 256)

pub add64_exact : (a b : ℕ) → a + b < u64_mod → add64 a b ≡ a + b
add64_exact a b h = omega arith

pub sub64_exact : (a b : ℕ) → a < u64_mod → b ≤ a → sub64 a b ≡ a - b
sub64_exact a b h k = omega arith
