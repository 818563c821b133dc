-- ===== src/Base/Int.antt =====
-- Go's int, 64 bits wide.
use Prim.Native.Nat.{ℕ, suc, ◌+◌, ◌-◌, ◌%◌, ◌^◌, ◌≤◌, ◌<◌}
use mathlib.Core.Path.{◌≡◌}
use mathlib.Core.Bool.{Bool, true}
use native.Mathlib.Omega.{arith}
use microcosm.Base.Tests.{ltb, leb, if◌then◌else◌}

-- `negsuc n` is -(n + 1).
pub data ℤ : Type 0 where
  pos : ℕ → ℤ
  negsuc : ℕ → ℤ

abbrev pub pos_part : ℤ → ℕ
pos_part (pos n) = n
pos_part (negsuc n) = 0

abbrev pub neg_part : ℤ → ℕ
neg_part (pos n) = 0
neg_part (negsuc n) = suc n

-- a - b, as an integer.
abbrev pub sub_ℕ : ℕ → ℕ → ℤ
sub_ℕ a b = if leb b a then pos (a - b) else negsuc (b - a - 1)

infix 50 ◌≤ℤ◌
abbrev pub ◌≤ℤ◌ : ℤ → ℤ → Type 0
a ≤ℤ b = pos_part a + neg_part b ≤ pos_part b + neg_part a

infix 50 ◌<ℤ◌
abbrev pub ◌<ℤ◌ : ℤ → ℤ → Type 0
a <ℤ b = pos_part a + neg_part b < pos_part b + neg_part a

abbrev pub ltℤ : ℤ → ℤ → Bool
ltℤ a b = ltb (pos_part a + neg_part b) (pos_part b + neg_part a)

abbrev pub leℤ : ℤ → ℤ → Bool
leℤ a b = leb (pos_part a + neg_part b) (pos_part b + neg_part a)

-- The 64 bits that stay of a number, read as a signed one.
abbrev pub wrap64 : ℤ → ℤ
wrap64 (pos n) = let k = n % 2 ^ 64 in if ltb k (2 ^ 63) then pos k else negsuc (2 ^ 64 - k - 1)
wrap64 (negsuc n) = let k = n % 2 ^ 64 in if ltb k (2 ^ 63) then negsuc k else pos (2 ^ 64 - k - 1)

unfoldable pub sub64 : ℤ → ℤ → ℤ
sub64 a b = wrap64 (sub_ℕ (pos_part a + neg_part b) (neg_part a + pos_part b))

-- Below 2^62 in size, a difference does not wrap.
abbrev pub IsSmall : ℤ → Type 0
IsSmall a = (pos_part a < 2 ^ 62) × (neg_part a < 2 ^ 62)

-- It is then the integer whose parts add up.
pub sub64_parts :
    (a b : ℤ)
    → IsSmall a
    → IsSmall b
    → pos_part (sub64 a b) + neg_part a + pos_part b
      ≡ neg_part (sub64 a b) + pos_part a + neg_part b
unfolding sub64
sub64_parts a b ha hb = ground arith

pub ltℤ→lt : (a b : ℤ) → ltℤ a b ≡ true → a <ℤ b
ltℤ→lt a b h = ground arith

pub leℤ→le : (a b : ℤ) → leℤ a b ≡ true → a ≤ℤ b
leℤ→le a b h = ground arith
