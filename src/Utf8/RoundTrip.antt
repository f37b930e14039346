-- ===== src/Utf8/RoundTrip.antt =====
-- Reading the encoding of a text from the port gives the text back.
use mathlib.Core.Path.{subst}
use imagineos.Base.{
  ℕ, zero, suc, ◌+◌, ◌*◌, ◌/◌, ◌%◌, ◌≤◌, ◌<◌, ◌≡◌, refl, ap, ◌∙◌, Option, List, [], ◌∷◌, ◌++◌, ltb,
  arith, Bool-cases, inl, inr,
}
use imagineos.Base.Lists.{All, length}
use imagineos.Utf8.{
  Decoder, new, push, push_pending, push_taken, pending_or_read, serial_read_char,
  serial_read_chars, prepend,
}
use imagineos.Utf8.Encoding.{
  IsScalar, encode, encode_all, inside, push-ascii, push-lead_2, push-lead_3, push-lead_4,
  push-further, push-last,
}

-- One call for each of the bytes, and some more.
calls_for : List ℕ → ℕ → ℕ
calls_for [] n = n
calls_for (b ∷ bs) n = suc (calls_for bs n)

calls_for-length : (bs : List ℕ) (n : ℕ) → calls_for bs n ≡ length bs + n
unfolding calls_for
calls_for-length [] n = omega arith
calls_for-length (b ∷ bs) n = omega (arith, calls_for-length bs n)

calls_for-append : (bs ds : List ℕ) (n : ℕ) → calls_for (bs ++ ds) n ≡ calls_for bs (calls_for ds n)
unfolding calls_for
calls_for-append [] ds n = refl
calls_for-append (b ∷ bs) ds n = ap suc (calls_for-append bs ds n)

append_assoc : (xs ys zs : List ℕ) → (xs ++ ys) ++ zs ≡ xs ++ (ys ++ zs)
append_assoc [] ys zs = refl
append_assoc (x ∷ xs) ys zs = ap (λ t. x ∷ t) (append_assoc xs ys zs)

-- A call reads a byte where none is pending.
read_one :
    (n c m r b : ℕ) (port : List ℕ) (o : Option ℕ) (d : Decoder)
    → push b (inside c m r) ≡ (o, d)
    → serial_read_chars (suc n) (inside c m r) (b ∷ port) ≡ prepend o (serial_read_chars n d port)
unfolding serial_read_chars serial_read_char pending_or_read push_pending push_taken
read_one n c m r b port o d e = rw e refl

-- Between two sequences, these bytes are read as the character `c`, and the decoder is between two
-- sequences again.
Reads : List ℕ → ℕ → Type 0
Reads bytes c =
    (n a m : ℕ) (port : List ℕ)
    → (a' : ℕ) × (m' : ℕ) × (serial_read_chars (calls_for bytes n) (inside a m 0) (bytes ++ port)
        ≡ c ∷ serial_read_chars n (inside a' m' 0) port)

one_byte-Reads : (c : ℕ) → c < 0x80 → Reads (c ∷ []) c
unfolding Reads calls_for
one_byte-Reads c h n a m port = (a, m, read_one n a m 0 c port _ _ (push-ascii c a m h))

two_bytes-Reads :
    (x y : ℕ)
    → 2 ≤ x
    → x < 32
    → y < 64
    → IsScalar (x * 64 + y)
    → Reads ((0xc0 + x) ∷ (0x80 + y) ∷ []) (x * 64 + y)
unfolding Reads calls_for
two_bytes-Reads x y l hx hy v n a m port = (
  x * 64 + y,
  0x80,
  read_one (suc n) a m 0 (0xc0 + x) ((0x80 + y) ∷ port) _ _ (push-lead_2 x a m l hx)
      ∙ read_one n x 0x80 1 (0x80 + y) port _ _
          (push-last y x 0x80 hy (omega arith) (omega arith) v),
)

three_bytes-Reads :
    (x y z : ℕ)
    → x < 16
    → y < 64
    → z < 64
    → 0x800 ≤ (x * 64 + y) * 64 + z
    → IsScalar ((x * 64 + y) * 64 + z)
    → Reads ((0xe0 + x) ∷ (0x80 + y) ∷ (0x80 + z) ∷ []) ((x * 64 + y) * 64 + z)
unfolding Reads calls_for
three_bytes-Reads x y z hx hy hz l v n a m port = (
  (x * 64 + y) * 64 + z,
  0x800,
  read_one (suc (suc n)) a m 0 (0xe0 + x) ((0x80 + y) ∷ (0x80 + z) ∷ port) _ _
        (push-lead_3 x a m hx)
      ∙ read_one (suc n) x 0x800 2 (0x80 + y) ((0x80 + z) ∷ port) _ _
          (push-further y x 0x800 0 hy (omega arith))
      ∙ read_one n (x * 64 + y) 0x800 1 (0x80 + z) port _ _
          (push-last z (x * 64 + y) 0x800 hz (omega arith) l v),
)

four_bytes-Reads :
    (x y z w : ℕ)
    → x < 5
    → y < 64
    → z < 64
    → w < 64
    → 0x10000 ≤ ((x * 64 + y) * 64 + z) * 64 + w
    → IsScalar (((x * 64 + y) * 64 + z) * 64 + w)
    → Reads
        ((0xf0 + x) ∷ (0x80 + y) ∷ (0x80 + z) ∷ (0x80 + w) ∷ [])
        (((x * 64 + y) * 64 + z) * 64 + w)
unfolding Reads calls_for
four_bytes-Reads x y z w hx hy hz hw l v n a m port = (
  ((x * 64 + y) * 64 + z) * 64 + w,
  0x10000,
  read_one (suc (suc (suc n))) a m 0 (0xf0 + x) ((0x80 + y) ∷ (0x80 + z) ∷ (0x80 + w) ∷ port) _ _
        (push-lead_4 x a m hx)
      ∙ read_one (suc (suc n)) x 0x10000 3 (0x80 + y) ((0x80 + z) ∷ (0x80 + w) ∷ port) _ _
          (push-further y x 0x10000 1 hy (omega arith))
      ∙ read_one (suc n) (x * 64 + y) 0x10000 2 (0x80 + z) ((0x80 + w) ∷ port) _ _
          (push-further z (x * 64 + y) 0x10000 0 hz (omega arith))
      ∙ read_one n ((x * 64 + y) * 64 + z) 0x10000 1 (0x80 + w) port _ _
          (push-last w ((x * 64 + y) * 64 + z) 0x10000 hw (omega arith) l v),
)

encode-Reads : (c : ℕ) → IsScalar c → Reads (encode c) c
encode-Reads c v = elim (Bool-cases (ltb c 0x80)) [
  | inl t ↦ rw t (one_byte-Reads c (ground arith))
  | inr t ↦ elim (Bool-cases (ltb c 0x800)) [
    | inl u ↦
        let e : c / 64 * 64 + c % 64 ≡ c = omega arith in
        rw (t, u)
          (subst (λ k. Reads ((0xc0 + c / 64) ∷ (0x80 + c % 64) ∷ []) k) e
            (two_bytes-Reads (c / 64) (c % 64) (ground arith) (ground arith) (omega arith)
              (rw e v)))
    | inr u ↦ elim (Bool-cases (ltb c 0x10000)) [
      | inl w ↦
          let e : (c / 4096 * 64 + c / 64 % 64) * 64 + c % 64 ≡ c = omega arith in
          rw (t, u, w)
            (subst (λ k. Reads ((0xe0 + c / 4096) ∷ (0x80 + c / 64 % 64) ∷ (0x80 + c % 64) ∷ []) k)
              e
              (three_bytes-Reads (c / 4096) (c / 64 % 64) (c % 64) (ground arith) (omega arith)
                (omega arith) (ground arith) (rw e v)))
      | inr w ↦
          let e : ((c / 262144 * 64 + c / 4096 % 64) * 64 + c / 64 % 64) * 64 + c % 64 ≡ c =
            omega arith in
          rw (t, u, w)
            (subst
              (λ k.
                Reads
                  ((0xf0 + c / 262144)
                    ∷ (0x80 + c / 4096 % 64)
                    ∷ (0x80 + c / 64 % 64)
                    ∷ (0x80 + c % 64)
                    ∷ [])
                  k)
              e
              (four_bytes-Reads (c / 262144) (c / 4096 % 64) (c / 64 % 64) (c % 64) (ground arith)
                (omega arith) (omega arith) (omega arith) (ground arith) (rw e v)))
    ]
  ]
]

-- Nothing is left to read.
read_none : (n a m : ℕ) → serial_read_chars n (inside a m 0) [] ≡ []
unfolding serial_read_chars serial_read_char pending_or_read push_pending push_taken
read_none zero a m = refl
read_none (suc n) a m = read_none n a m

read_text :
    (cs : List ℕ) (n a m : ℕ)
    → All IsScalar cs
    → serial_read_chars (calls_for (encode_all cs) n) (inside a m 0) (encode_all cs) ≡ cs
unfolding calls_for Reads
read_text [] n a m v = read_none n a m
read_text (c ∷ cs) n a m v =
    let (a', m', e) = encode-Reads c v.0 (calls_for (encode_all cs) n) a m (encode_all cs) in
    rw (calls_for-append (encode c) (encode_all cs) n)
      (e ∙ ap (λ t. c ∷ t) (read_text cs n a' m' v.1))

-- A text of characters that are Unicode scalar values, encoded by the table of UTF-8, comes back from
-- the port: calls of `serial_read_char`, at least as many as there are bytes, give just the
-- characters of the text, in their order.
pub serial_read_chars-encode_all :
    (cs : List ℕ) (n : ℕ)
    → All IsScalar cs
    → serial_read_chars (length (encode_all cs) + n) new (encode_all cs) ≡ cs
serial_read_chars-encode_all cs n v =
    rw (← calls_for-length (encode_all cs) n) (read_text cs n 0 0 v)
