-- ===== src/Base/Int.antt =====
-- Signed integers over the native numbers, and the wrap-around of an i32.
use Prim.Native.Nat.{ℕ, suc, ◌+◌, ◌-◌, ◌%◌, ◌^◌, ◌≤◌, ◌<◌, compare, Ordering}
use mathlib.Core.Bool.{Bool, true, false}
use mathlib.Core.Path.{◌≡◌}
use native.Mathlib.Omega.{arith}

-- `negsuc n` is -(n + 1).
pub data ℤ : Type 0 where
  pos : ℕ → ℤ
  negsuc : ℕ → ℤ

abbrev pub pos_part : ℤ → ℕ
pos_part (pos n) = n
pos_part (negsuc n) = 0

abbrev pub neg_part : ℤ → ℕ
neg_part (pos n) = 0
neg_part (negsuc n) = suc n

abbrev pub sub_ℕ : ℕ → ℕ → ℤ
sub_ℕ a b = elim (compare a b) [ Ordering.lt ↦ negsuc (b - a - 1) | _ ↦ pos (a - b) ]

-- The i32 with the same low 32 bits as a - b.
abbrev pub to_i32 : ℕ → ℕ → ℤ
to_i32 a b =
    let u : ℕ = (a + (2 ^ 32 - b % 2 ^ 32)) % 2 ^ 32 in
    elim (compare u (2 ^ 31)) [ Ordering.lt ↦ pos u | _ ↦ negsuc (2 ^ 32 - u - 1) ]

-- `a + b` and `a - b` on i32, as the release build computes them.
infixl 65 ◌+ℤ◌ ◌-ℤ◌
unfoldable pub ◌+ℤ◌ : ℤ → ℤ → ℤ
a +ℤ b = to_i32 (pos_part a + pos_part b) (neg_part a + neg_part b)

unfoldable pub ◌-ℤ◌ : ℤ → ℤ → ℤ
a -ℤ b = to_i32 (pos_part a + neg_part b) (neg_part a + pos_part b)

infix 50 ◌≤ℤ◌
abbrev pub ◌≤ℤ◌ : ℤ → ℤ → Type 0
a ≤ℤ b = pos_part a + neg_part b ≤ pos_part b + neg_part a

abbrev pub ltb_ℤ : ℤ → ℤ → Bool
ltb_ℤ a b = elim (compare (pos_part a + neg_part b) (pos_part b + neg_part a)) [
  | Ordering.lt ↦ true
  | _ ↦ false
]

pub +ℤ_exact :
    (a b : ℤ)
    → pos_part a + pos_part b < 2 ^ 31
    → neg_part a + neg_part b ≤ 2 ^ 31
    → a +ℤ b ≡ sub_ℕ (pos_part a + pos_part b) (neg_part a + neg_part b)
unfolding ◌+ℤ◌
+ℤ_exact a b h h' = ground arith
