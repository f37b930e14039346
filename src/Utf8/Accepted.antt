-- ===== src/Utf8/Accepted.antt =====
-- What the decoder accepts is an encoding: no longer one than need be, no surrogate, nothing too
-- large.
use mathlib.Core.Path.{subst}
use imagineos.Base.{
  ℕ, suc, ◌+◌, ◌-◌, ◌*◌, ◌/◌, ◌%◌, ◌^◌, ◌≤◌, ◌<◌, ◌≡◌, ◌≢◌, ◌⊎◌, refl, sym, true, false, Option,
  none, some, List, [], ◌∷◌, ◌++◌, ltb, ◌==◌, arith, Bool-cases, inl, inr,
}
use imagineos.Base.Lists.{All}
use Prim.Native.Nat.{bit_and}
use imagineos.Utf8.{
  Decoder, new, push, first_byte, next_byte, finish, is_scalar, within, replacement,
}
use imagineos.Utf8.Encoding.{
  IsScalar, encode, inside, high_2, push-final, push-ascii, push-lead_2, push-lead_3, push-lead_4,
  push-further,
}

-- The bytes of a sequence that has begun, and the decoder behind them.
data Begun : List ℕ → Decoder → Type 0 where
  nothing : (a m : ℕ) → Begun [] (inside a m 0)
  two : (x : ℕ) → 2 ≤ x → x < 32 → Begun ((0xc0 + x) ∷ []) (inside x 0x80 1)
  three : (x : ℕ) → x < 16 → Begun ((0xe0 + x) ∷ []) (inside x 0x800 2)
  three_of :
      (x y : ℕ)
      → x < 16
      → y < 64
      → Begun ((0xe0 + x) ∷ (0x80 + y) ∷ []) (inside (x * 64 + y) 0x800 1)
  four : (x : ℕ) → x < 5 → Begun ((0xf0 + x) ∷ []) (inside x 0x10000 3)
  four_of :
      (x y : ℕ)
      → x < 5
      → y < 64
      → Begun ((0xf0 + x) ∷ (0x80 + y) ∷ []) (inside (x * 64 + y) 0x10000 2)
  four_last :
      (x y z : ℕ)
      → x < 5
      → y < 64
      → z < 64
      → Begun ((0xf0 + x) ∷ (0x80 + y) ∷ (0x80 + z) ∷ []) (inside ((x * 64 + y) * 64 + z) 0x10000 1)

abbrev IsEncoding : List ℕ → ℕ → Type 0
IsEncoding bytes c = (bytes ≡ encode c) × IsScalar c

-- After the last of the bytes: the sequence goes on, or it is refused, or it encodes the answer.
abbrev Verdict : List ℕ → Option ℕ × Decoder → Type 0
Verdict bytes (none, d) = Begun bytes d
Verdict bytes (some c, d) = (c ≡ replacement) ⊎ IsEncoding bytes c

encode_1 : (c : ℕ) → c < 0x80 → encode c ≡ c ∷ []
encode_1 c h = ground arith

encode_2 :
    (x y : ℕ)
    → x < 32
    → y < 64
    → 0x80 ≤ x * 64 + y
    → encode (x * 64 + y) ≡ (0xc0 + x) ∷ (0x80 + y) ∷ []
encode_2 x y hx hy l =
    let t : ltb (x * 64 + y) 0x80 ≡ false = ground arith in
    let u : ltb (x * 64 + y) 0x800 ≡ true = ground arith in
    let a : (x * 64 + y) / 64 ≡ x = omega arith in
    let b : (x * 64 + y) % 64 ≡ y = omega arith in rw (t, u, a, b) refl

encode_3 :
    (x y z : ℕ)
    → x < 16
    → y < 64
    → z < 64
    → 0x800 ≤ (x * 64 + y) * 64 + z
    → encode ((x * 64 + y) * 64 + z) ≡ (0xe0 + x) ∷ (0x80 + y) ∷ (0x80 + z) ∷ []
encode_3 x y z hx hy hz l =
    let c : ℕ = (x * 64 + y) * 64 + z in
    let t : ltb c 0x80 ≡ false = ground arith in
    let u : ltb c 0x800 ≡ false = ground arith in
    let w : ltb c 0x10000 ≡ true = ground arith in
    let a : c / 4096 ≡ x = omega arith in
    let b : c / 64 % 64 ≡ y = omega arith in
    let d : c % 64 ≡ z = omega arith in rw (t, u, w, a, b, d) refl

encode_4 :
    (x y z v : ℕ)
    → y < 64
    → z < 64
    → v < 64
    → 0x10000 ≤ ((x * 64 + y) * 64 + z) * 64 + v
    → encode (((x * 64 + y) * 64 + z) * 64 + v)
      ≡ (0xf0 + x) ∷ (0x80 + y) ∷ (0x80 + z) ∷ (0x80 + v) ∷ []
encode_4 x y z v hy hz hv l =
    let c : ℕ = ((x * 64 + y) * 64 + z) * 64 + v in
    let t : ltb c 0x80 ≡ false = ground arith in
    let u : ltb c 0x800 ≡ false = ground arith in
    let w : ltb c 0x10000 ≡ false = ground arith in
    let a : c / 262144 ≡ x = omega arith in
    let b : c / 4096 % 64 ≡ y = omega arith in
    let d : c / 64 % 64 ≡ z = omega arith in
    let f : c % 64 ≡ v = omega arith in rw (t, u, w, a, b, d, f) refl

-- `finish` refuses a number, or the number is large enough and the code point of a character.
finish_cases :
    (c m r : ℕ)
    → (finish (inside c m r) ≡ some replacement)
      ⊎ (finish (inside c m r) ≡ some c) × (m ≤ c) × IsScalar c
unfolding finish
finish_cases c m r = elim (Bool-cases (ltb c m)) [
  | inl t ↦ rw t (inl refl)
  | inr t ↦ elim (Bool-cases (is_scalar c)) [
    | inl u ↦ rw (t, u) (inr (refl, ground arith, ground arith))
    | inr u ↦ rw (t, u) (inl refl)
  ]
]

-- The bytes that go on in a sequence are those with the high digits 10.
further_cases :
    (b c m r : ℕ)
    → b ≤ 255
    → ((push b (inside c m (suc r))).0 ≡ some replacement) ⊎ (b ≡ 0x80 + b % 64)
unfolding push next_byte
further_cases b c m r h =
    let e : (suc r == 0) ≡ false = ground arith in
    elim (Bool-cases (bit_and b 0xc0 == 0x80)) [
      | inl t ↦ inr (ground (arith, high_2 b h))
      | inr t ↦ rw (e, t) (inl refl)
    ]

Verdict-refused :
    (bytes : List ℕ) (r : Option ℕ × Decoder) → r.0 ≡ some replacement → Verdict bytes r
Verdict-refused bytes (none, d) e = cc
Verdict-refused bytes (some c, d) e = inl cc

-- The next byte of a sequence, as far as it goes on or ends there.
Verdict-further :
    (bytes : List ℕ) (b c m r : ℕ)
    → b ≤ 255
    → Verdict (bytes ++ (0x80 + b % 64) ∷ []) (push (0x80 + b % 64) (inside c m (suc r)))
    → Verdict (bytes ++ b ∷ []) (push b (inside c m (suc r)))
Verdict-further bytes b c m r h v = elim (further_cases b c m r h) [
  | inl e ↦ Verdict-refused (bytes ++ b ∷ []) (push b (inside c m (suc r))) e
  | inr e ↦ subst (λ k. Verdict (bytes ++ k ∷ []) (push k (inside c m (suc r)))) (sym e) v
]

Verdict-final :
    (bytes : List ℕ) (y c m : ℕ)
    → y < 64
    → c < 2 ^ 20
    → (m ≤ c * 64 + y → IsScalar (c * 64 + y) → encode (c * 64 + y) ≡ bytes)
    → Verdict bytes (push (0x80 + y) (inside c m 1))
Verdict-final bytes y c m h k same = elim (finish_cases (c * 64 + y) m 0) [
  | inl e ↦ rw (push-final y c m h k, e) (inl refl)
  | inr (e, l, v) ↦ rw (push-final y c m h k, e) (inr (sym (same l v), v))
]

refused :
    (b a m : ℕ)
    → ltb b 0x80 ≡ false
    → within 0xc2 0xdf b ≡ false
    → within 0xe0 0xef b ≡ false
    → within 0xf0 0xf4 b ≡ false
    → (push b (inside a m 0)).0 ≡ some replacement
unfolding push first_byte
refused b a m t u v w = let s : within 0x00 0x7f b ≡ false = ground arith in rw (s, u, v, w) refl

Verdict-first : (b a m : ℕ) → b ≤ 255 → Verdict (b ∷ []) (push b (inside a m 0))
Verdict-first b a m h = elim (Bool-cases (ltb b 0x80)) [
  | inl t ↦
      rw (push-ascii b a m (ground arith))
        (inr (sym (encode_1 b (ground arith)), inl (ground arith)))
  | inr t ↦ elim (Bool-cases (within 0xc2 0xdf b)) [
    | inl u ↦ lead 0xc0 (b - 0xc0) (ground arith) (
        rw (push-lead_2 (b - 0xc0) a m (ground arith) (ground arith))
          (two (b - 0xc0) (ground arith) (ground arith)))
    | inr u ↦ elim (Bool-cases (within 0xe0 0xef b)) [
      | inl v ↦
          lead 0xe0 (b - 0xe0) (ground arith)
            (rw (push-lead_3 (b - 0xe0) a m (ground arith)) (three (b - 0xe0) (ground arith)))
      | inr v ↦ elim (Bool-cases (within 0xf0 0xf4 b)) [
        | inl w ↦
            lead 0xf0 (b - 0xf0) (ground arith)
              (rw (push-lead_4 (b - 0xf0) a m (ground arith)) (four (b - 0xf0) (ground arith)))
        | inr w ↦ Verdict-refused (b ∷ []) (push b (inside a m 0)) (refused b a m t u v w)
      ]
    ]
  ]
]
  where
    lead :
        (base x : ℕ)
        → base + x ≡ b
        → Verdict ((base + x) ∷ []) (push (base + x) (inside a m 0))
        → Verdict (b ∷ []) (push b (inside a m 0))
    lead base x e v = subst (λ k. Verdict (k ∷ []) (push k (inside a m 0))) e v

push-Verdict :
    (bytes : List ℕ) (d : Decoder) (b : ℕ)
    → Begun bytes d
    → b ≤ 255
    → Verdict (bytes ++ b ∷ []) (push b d)
push-Verdict _ _ b (nothing a m) h = Verdict-first b a m h
push-Verdict _ _ b (two x l hx) h = Verdict-further ((0xc0 + x) ∷ []) b x 0x80 0 h (
    Verdict-final _ (b % 64) x 0x80 (omega arith) (omega arith)
      (λ k v. encode_2 x (b % 64) hx (omega arith) k))
push-Verdict _ _ b (three x hx) h = Verdict-further ((0xe0 + x) ∷ []) b x 0x800 1 h (
    rw (push-further (b % 64) x 0x800 0 (omega arith) (omega arith))
      (three_of x (b % 64) hx (omega arith)))
push-Verdict _ _ b (three_of x y hx hy) h =
    Verdict-further ((0xe0 + x) ∷ (0x80 + y) ∷ []) b (x * 64 + y) 0x800 0 h (
      Verdict-final _ (b % 64) (x * 64 + y) 0x800 (omega arith) (omega arith)
        (λ k v. encode_3 x y (b % 64) hx hy (omega arith) k))
push-Verdict _ _ b (four x hx) h = Verdict-further ((0xf0 + x) ∷ []) b x 0x10000 2 h (
    rw (push-further (b % 64) x 0x10000 1 (omega arith) (omega arith))
      (four_of x (b % 64) hx (omega arith)))
push-Verdict _ _ b (four_of x y hx hy) h =
    Verdict-further ((0xf0 + x) ∷ (0x80 + y) ∷ []) b (x * 64 + y) 0x10000 1 h (
      rw (push-further (b % 64) (x * 64 + y) 0x10000 0 (omega arith) (omega arith))
        (four_last x y (b % 64) hx hy (omega arith)))
push-Verdict _ _ b (four_last x y z hx hy hz) h =
    Verdict-further ((0xf0 + x) ∷ (0x80 + y) ∷ (0x80 + z) ∷ []) b ((x * 64 + y) * 64 + z) 0x10000 0
      h
      (Verdict-final _ (b % 64) ((x * 64 + y) * 64 + z) 0x10000 (omega arith) (omega arith)
        (λ k v. encode_4 x y z (b % 64) hy hz (omega arith) k))

-- Pushes the bytes in turn until one is answered: the bytes up to that one, behind those already
-- taken, and the answer.
unfoldable pub first_answer : List ℕ → List ℕ → Decoder → Option (List ℕ × ℕ)
first_answer taken [] d = none
first_answer taken (b ∷ bytes) d =
    let (o, d') = push b d in
    elim o [ some c ↦ some (taken ++ b ∷ [], c) | none ↦ first_answer (taken ++ b ∷ []) bytes d' ]

first_answer-IsEncoding :
    (bytes taken used : List ℕ) (c : ℕ) (d : Decoder)
    → All (λ b. b ≤ 255) bytes
    → Begun taken d
    → c ≢ replacement
    → first_answer taken bytes d ≡ some (used, c)
    → IsEncoding used c
unfolding first_answer
first_answer-IsEncoding [] taken used c d h v ne e = cc
first_answer-IsEncoding (b ∷ bytes) taken used c d h v ne e =
    of (push b d) (push-Verdict taken d b v h.0) e
      (λ d' v'. first_answer-IsEncoding bytes (taken ++ b ∷ []) used c d' h.1 v' ne)
  where
    of :
        (r : Option ℕ × Decoder)
        → Verdict (taken ++ b ∷ []) r
        → elim r.0 [
          | some c' ↦ some (taken ++ b ∷ [], c')
          | none ↦ first_answer (taken ++ b ∷ []) bytes r.1
        ]
          ≡ some (used, c)
        → ((d' : Decoder)
            → Begun (taken ++ b ∷ []) d'
            → first_answer (taken ++ b ∷ []) bytes d' ≡ some (used, c)
            → IsEncoding used c)
        → IsEncoding used c
    of (none, d') w e k = k d' w e
    of (some c', d') (inl w) e k = absurd (ne cc)
    of (some c', d') (inr w) e k =
        let f : c' ≡ c = cc in let g : taken ++ b ∷ [] ≡ used = cc in rw (f, g) at w

-- Whatever bytes a new decoder gets, its first answer, if it is not U+FFFD, stands for just the
-- bytes up to it: these are the encoding of the answer by the table of UTF-8, and the answer is a
-- Unicode scalar value. So no longer form, no surrogate and no number above U+10FFFF passes.
pub first_answer-encode :
    (bytes used : List ℕ) (c : ℕ)
    → All (λ b. b ≤ 255) bytes
    → c ≢ replacement
    → first_answer [] bytes new ≡ some (used, c)
    → (used ≡ encode c) × IsScalar c
first_answer-encode bytes used c h ne e =
    first_answer-IsEncoding bytes [] used c new h (nothing 0 0) ne e
