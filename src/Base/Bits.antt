-- ===== src/Base/Bits.antt =====
-- Bit masks as arithmetic: over a small range by evaluation, and a shifted number joined to lower bits.
use native.Mathlib.Decide.{ℕ_discrete}
use imagineos.Base.{
  ℕ, zero, suc, ◌+◌, ◌*◌, ◌/◌, ◌%◌, ◌^◌, ◌≤◌, ◌<◌, ◌≡◌, refl, max, Bool, true, false, ◌==◌,
  if◌then◌else◌, arith, Bool-cases, inl, inr,
}
use Prim.Native.Nat.pow
use Prim.Native.Nat.{bit_or, digits, bit_or-bitwise}

-- Whether two tests agree on every number up to one.
unfoldable pub agree_up_to : (ℕ → ℕ) → (ℕ → ℕ) → ℕ → Bool
agree_up_to f g zero = f zero == g zero
agree_up_to f g (suc most) = if f (suc most) == g (suc most) then agree_up_to f g most else false

pub agree_up_to-at : (f g : ℕ → ℕ) (most n : ℕ) → n ≤ most → agree_up_to f g most ≡ true → f n ≡ g n
unfolding agree_up_to
agree_up_to-at f g zero n le h = let e : n ≡ 0 = omega arith in rw e (ground arith)
agree_up_to-at f g (suc most) n le h = elim (Bool-cases (f (suc most) == g (suc most))) [
  | inr t ↦ let e : false ≡ true = rw t at h in cc
  | inl t ↦ elim (ℕ_discrete n (suc most)) [
    | yes e ↦ rw e (ground arith)
    | no ne ↦ agree_up_to-at f g most n (omega arith) (rw t at h)
  ]
]

-- The law of the lowest digit of `bit_or`, from the definition that the operation stands for.
abbrev or_digits : ℕ → ℕ → ℕ → ℕ
or_digits n a b = digits (λ b. b) max n a b

or_digits_fuel : (n m a b : ℕ) → a ≤ n → a ≤ m → or_digits n a b ≡ or_digits m a b
or_digits_fuel zero zero a b p q = refl
or_digits_fuel zero (suc m) zero b p q = refl
or_digits_fuel zero (suc m) (suc a) b p q = absurd (omega arith)
or_digits_fuel (suc n) zero zero b p q = refl
or_digits_fuel (suc n) zero (suc a) b p q = absurd (omega arith)
or_digits_fuel (suc n) (suc m) zero b p q = refl
or_digits_fuel (suc n) (suc m) (suc a) b p q =
    omega (arith, or_digits_fuel n m (suc a / 2) (b / 2) (omega arith) (omega arith))

zero-bit_or : (b : ℕ) → bit_or 0 b ≡ b
zero-bit_or b = bit_or-bitwise 0 b

bit_or_step : (a b : ℕ) → bit_or a b ≡ bit_or (a / 2) (b / 2) * 2 + max (a % 2) (b % 2)
bit_or_step zero b = omega (arith, zero-bit_or b, zero-bit_or (b / 2))
bit_or_step (suc a) b = omega (
  arith,
  bit_or-bitwise (suc a) b,
  bit_or-bitwise (suc a / 2) (b / 2),
  or_digits_fuel a (suc a / 2) (suc a / 2) (b / 2) (omega arith) (omega arith),
)

bit_or-zero_fuel : (n a : ℕ) → a ≤ n → bit_or a 0 ≡ a
bit_or-zero_fuel zero a h = let e : a ≡ 0 = omega arith in rw e (zero-bit_or 0)
bit_or-zero_fuel (suc n) zero h = zero-bit_or 0
bit_or-zero_fuel (suc n) (suc a) h =
    omega (arith, bit_or_step (suc a) 0, bit_or-zero_fuel n (suc a / 2) (omega arith))

-- An even number leaves the lowest digit to the other one.
bit_or-even : (a b : ℕ) → bit_or (a * 2) b ≡ bit_or a (b / 2) * 2 + b % 2
bit_or-even a b =
    let h : a * 2 / 2 ≡ a = omega arith in
    let t : bit_or (a * 2) b ≡ bit_or (a * 2 / 2) (b / 2) * 2 + max (a * 2 % 2) (b % 2) =
      bit_or_step (a * 2) b in
    let u : bit_or (a * 2) b ≡ bit_or a (b / 2) * 2 + max (a * 2 % 2) (b % 2) = rw h at t in
    omega (arith, u)

-- The digits of `b` below `2 ^ k` go under a number that is shifted by `k`.
pub bit_or-shifted : (k a b : ℕ) → b < 2 ^ k → bit_or (a * 2 ^ k) b ≡ a * 2 ^ k + b
bit_or-shifted zero a b h =
    let e : b ≡ 0 = omega arith in
    let f : a * 2 ^ 0 ≡ a = omega arith in
    rw (e, f) (omega (arith, bit_or-zero_fuel a a (omega arith)))
bit_or-shifted (suc k) a b h =
    let p : 2 ^ suc k ≡ 2 ^ k * 2 = pow.suc 2 k in
    let e : a * 2 ^ suc k ≡ a * 2 ^ k * 2 = rw p (grind arith) in
    let ih : bit_or (a * 2 ^ k) (b / 2) ≡ a * 2 ^ k + b / 2 =
      bit_or-shifted k a (b / 2) (omega (arith, p)) in
    let t : bit_or (a * 2 ^ k * 2) b ≡ bit_or (a * 2 ^ k) (b / 2) * 2 + b % 2 =
      bit_or-even (a * 2 ^ k) b in
    rw e (omega (arith, t, ih))
