-- ===== src/Utf8/Encoding.antt =====
-- The encoding of a text, and that reading it from the port gives the text back.
use imagineos.Base.{
  ℕ, suc, ◌+◌, ◌-◌, ◌*◌, ◌/◌, ◌%◌, ◌^◌, ◌≤◌, ◌<◌, ◌≡◌, ◌⊎◌, refl, ap, ◌∙◌, true, false, Option,
  none, some, List, [], ◌∷◌, ◌++◌, ltb, ◌==◌, if◌then◌else◌, arith,
}
use imagineos.Base.Bits.{agree_up_to, agree_up_to-at, bit_or-shifted}
use Prim.Native.Nat.{bit_and, bit_or}
use imagineos.Utf8.{Decoder, push, first_byte, next_byte, finish, begin, advance}

-- The code points of characters: all up to U+10FFFF but the surrogates.
abbrev pub IsScalar : ℕ → Type 0
IsScalar c = (c < 0xd800) ⊎ ((0xdfff < c) × (c < 0x110000))

-- UTF-8: the leading digits to the base 64 in a first byte that tells how many bytes there are, and
-- one digit in each further byte.
abbrev pub encode : ℕ → List ℕ
encode c =
    if ltb c 0x80
    then c ∷ []
    else if ltb c 0x800
    then (0xc0 + c / 64) ∷ (0x80 + c % 64) ∷ []
    else if ltb c 0x10000
    then (0xe0 + c / 4096) ∷ (0x80 + c / 64 % 64) ∷ (0x80 + c % 64) ∷ []
    else (0xf0 + c / 262144) ∷ (0x80 + c / 4096 % 64) ∷ (0x80 + c / 64 % 64) ∷ (0x80 + c % 64) ∷ []

abbrev pub encode_all : List ℕ → List ℕ
encode_all [] = []
encode_all (c ∷ cs) = encode c ++ encode_all cs

low_3_table : agree_up_to (λ b. bit_and b 0x07) (λ b. b % 8) 255 ≡ true
unfolding agree_up_to
low_3_table = refl

low_4_table : agree_up_to (λ b. bit_and b 0x0f) (λ b. b % 16) 255 ≡ true
unfolding agree_up_to
low_4_table = refl

low_5_table : agree_up_to (λ b. bit_and b 0x1f) (λ b. b % 32) 255 ≡ true
unfolding agree_up_to
low_5_table = refl

low_6_table : agree_up_to (λ b. bit_and b 0x3f) (λ b. b % 64) 255 ≡ true
unfolding agree_up_to
low_6_table = refl

high_2_table : agree_up_to (λ b. bit_and b 0xc0) (λ b. b / 64 * 64) 255 ≡ true
unfolding agree_up_to
high_2_table = refl

low_3 : (b : ℕ) → b ≤ 255 → bit_and b 0x07 ≡ b % 8
low_3 b h = agree_up_to-at (λ b. bit_and b 0x07) (λ b. b % 8) 255 b h low_3_table

low_4 : (b : ℕ) → b ≤ 255 → bit_and b 0x0f ≡ b % 16
low_4 b h = agree_up_to-at (λ b. bit_and b 0x0f) (λ b. b % 16) 255 b h low_4_table

low_5 : (b : ℕ) → b ≤ 255 → bit_and b 0x1f ≡ b % 32
low_5 b h = agree_up_to-at (λ b. bit_and b 0x1f) (λ b. b % 32) 255 b h low_5_table

low_6 : (b : ℕ) → b ≤ 255 → bit_and b 0x3f ≡ b % 64
low_6 b h = agree_up_to-at (λ b. bit_and b 0x3f) (λ b. b % 64) 255 b h low_6_table

pub high_2 : (b : ℕ) → b ≤ 255 → bit_and b 0xc0 ≡ b / 64 * 64
high_2 b h = agree_up_to-at (λ b. bit_and b 0xc0) (λ b. b / 64 * 64) 255 b h high_2_table

-- In a sequence, with so many bytes to come; between two sequences there are none to come.
abbrev pub inside : ℕ → ℕ → ℕ → Decoder
inside codepoint minimum remaining = record {
  codepoint = codepoint;
  minimum = minimum;
  remaining = remaining;
  pending_byte = none;
}

pub push-ascii : (c a m : ℕ) → c < 0x80 → push c (inside a m 0) ≡ (some c, inside a m 0)
unfolding push first_byte
push-ascii c a m h = ground arith

pub push-lead_2 :
    (x a m : ℕ) → 2 ≤ x → x < 32 → push (0xc0 + x) (inside a m 0) ≡ (none, inside x 0x80 1)
unfolding push first_byte begin
push-lead_2 x a m l h =
    let e : bit_and (0xc0 + x) 0x1f ≡ x = omega (arith, low_5 (0xc0 + x) (omega arith)) in
    rw e (ground arith)

pub push-lead_3 : (x a m : ℕ) → x < 16 → push (0xe0 + x) (inside a m 0) ≡ (none, inside x 0x800 2)
unfolding push first_byte begin
push-lead_3 x a m h =
    let e : bit_and (0xe0 + x) 0x0f ≡ x = omega (arith, low_4 (0xe0 + x) (omega arith)) in
    rw e (ground arith)

pub push-lead_4 : (x a m : ℕ) → x < 5 → push (0xf0 + x) (inside a m 0) ≡ (none, inside x 0x10000 3)
unfolding push first_byte begin
push-lead_4 x a m h =
    let e : bit_and (0xf0 + x) 0x07 ≡ x = omega (arith, low_3 (0xf0 + x) (omega arith)) in
    rw e (ground arith)

-- A further byte brings one digit.
advance-digit :
    (x c m r : ℕ)
    → x < 64
    → c < 2 ^ 20
    → advance (0x80 + x) (inside c m r) ≡ inside (c * 64 + x) m (r - 1)
advance-digit x c m r h k =
    let e : bit_and (0x80 + x) 0x3f ≡ x = omega (arith, low_6 (0x80 + x) (omega arith)) in
    let f : c * 2 ^ 6 % 2 ^ 32 ≡ c * 2 ^ 6 = omega arith in
    let g : bit_or (c * 2 ^ 6) x ≡ c * 64 + x = bit_or-shifted 6 c x h in rw (e, f, g) refl

is_further : (x : ℕ) → x < 64 → (bit_and (0x80 + x) 0xc0 == 0x80) ≡ true
is_further x h = ground (arith, high_2 (0x80 + x) (omega arith))

pub push-further :
    (x c m r : ℕ)
    → x < 64
    → c < 2 ^ 20
    → push (0x80 + x) (inside c m (suc (suc r))) ≡ (none, inside (c * 64 + x) m (suc r))
unfolding push next_byte
push-further x c m r h k =
    let e : (suc (suc r) == 0) ≡ false = ground arith in
    let s : suc (suc r) - 1 ≡ suc r = omega arith in
    let f : (suc r == 0) ≡ false = ground arith in
    rw (e, is_further x h, advance-digit x c m (suc (suc r)) h k, s, f) refl

finish-scalar : (c m r : ℕ) → m ≤ c → IsScalar c → finish (inside c m r) ≡ some c
unfolding finish
finish-scalar c m r h v = ground arith

-- The byte that ends a sequence.
pub push-final :
    (x c m : ℕ)
    → x < 64
    → c < 2 ^ 20
    → push (0x80 + x) (inside c m 1) ≡ (finish (inside (c * 64 + x) m 0), inside (c * 64 + x) m 0)
unfolding push next_byte
push-final x c m h k =
    rw (is_further x h) (ap (λ (d : Decoder). (finish d, d)) (advance-digit x c m 1 h k))

pub push-last :
    (x c m : ℕ)
    → x < 64
    → c < 2 ^ 20
    → m ≤ c * 64 + x
    → IsScalar (c * 64 + x)
    → push (0x80 + x) (inside c m 1) ≡ (some (c * 64 + x), inside (c * 64 + x) m 0)
push-last x c m h k l v =
    push-final x c m h k
    ∙ ap (λ (o : Option ℕ). (o, inside (c * 64 + x) m 0)) (finish-scalar (c * 64 + x) m 0 l v)
