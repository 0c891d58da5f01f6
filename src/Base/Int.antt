-- ===== src/Base/Int.antt =====
-- Signed integers over the native numbers, for the program's `int`s, under the library's names.
-- An order or an equation of integers goes through their two parts, numbers that `omega` reads.
use native.Mathlib.Omega.{arith}
use mathlib.Core.Path.{◌≡◌, refl, ap}
use Prim.Native.Nat.{ℕ, suc, ◌+◌, ◌-◌, ◌≤◌, ◌<◌}
use mathlib.Core.Logic.{◌⊎◌, inl, inr}
use mathlib.Core.Bool.{Bool}
use sshos.Base.Tests.{ltb, leb, ◌==◌, if◌then◌else◌}

-- `negsuc n` is -(n + 1).
pub data ℤ : Type 0 where
  pos : ℕ → ℤ
  negsuc : ℕ → ℤ

abbrev pub pos_part : ℤ → ℕ
pos_part (pos n) = n
pos_part (negsuc n) = 0

abbrev pub neg_part : ℤ → ℕ
neg_part (pos n) = 0
neg_part (negsuc n) = suc n

abbrev pub sub_ℕ : ℕ → ℕ → ℤ
sub_ℕ a b = if leb b a then pos (a - b) else negsuc (b - a - 1)

infixl 65 ◌+ℤ◌ ◌-ℤ◌
infix 50 ◌≤ℤ◌ ◌<ℤ◌
unfoldable pub ◌+ℤ◌ : ℤ → ℤ → ℤ
a +ℤ b = sub_ℕ (pos_part a + pos_part b) (neg_part a + neg_part b)

unfoldable pub ◌-ℤ◌ : ℤ → ℤ → ℤ
a -ℤ b = sub_ℕ (pos_part a + neg_part b) (neg_part a + pos_part b)

abbrev pub ◌≤ℤ◌ : ℤ → ℤ → Type 0
a ≤ℤ b = pos_part a + neg_part b ≤ pos_part b + neg_part a

abbrev pub ◌<ℤ◌ : ℤ → ℤ → Type 0
a <ℤ b = pos_part a + neg_part b < pos_part b + neg_part a

abbrev pub ltb_ℤ : ℤ → ℤ → Bool
ltb_ℤ a b = ltb (pos_part a + neg_part b) (pos_part b + neg_part a)

abbrev pub leb_ℤ : ℤ → ℤ → Bool
leb_ℤ a b = leb (pos_part a + neg_part b) (pos_part b + neg_part a)

abbrev pub ==_ℤ : ℤ → ℤ → Bool
==_ℤ a b = pos_part a + neg_part b == pos_part b + neg_part a

-- `std::max` and `std::min` of `int`s.
abbrev pub max_ℤ : ℤ → ℤ → ℤ
max_ℤ a b = if ltb_ℤ a b then b else a

abbrev pub min_ℤ : ℤ → ℤ → ℤ
min_ℤ a b = if ltb_ℤ b a then b else a

-- What a sum and a difference are of, in the parts.
pub add_parts :
    (a b : ℤ)
    → pos_part (a +ℤ b) + (neg_part a + neg_part b) ≡ pos_part a + pos_part b + neg_part (a +ℤ b)
unfolding ◌+ℤ◌
add_parts a b = ground arith

pub sub_parts :
    (a b : ℤ)
    → pos_part (a -ℤ b) + (neg_part a + pos_part b) ≡ pos_part a + neg_part b + neg_part (a -ℤ b)
unfolding ◌-ℤ◌
sub_parts a b = ground arith

pub le_antisym_ℤ : (a b : ℤ) → a ≤ℤ b → b ≤ℤ a → a ≡ b
le_antisym_ℤ (pos a) (pos b) h k = ap pos (omega arith)
le_antisym_ℤ (pos a) (negsuc b) h k = absurd (omega arith)
le_antisym_ℤ (negsuc a) (pos b) h k = absurd (omega arith)
le_antisym_ℤ (negsuc a) (negsuc b) h k = ap negsuc (omega arith)

-- One of the parts is 0.
pub zero_part : (a : ℤ) → (pos_part a ≡ 0) ⊎ (neg_part a ≡ 0)
zero_part (pos n) = inr refl
zero_part (negsuc n) = inl refl
