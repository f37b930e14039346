-- ===== src/Utf8/Tests.antt =====
-- The decoder on fixed bytes.
use imagineos.Base.{ℕ, ◌+◌, ◌≡◌, refl, none, some, List, [], ◌∷◌, arith, inl, inr}
use imagineos.Base.Lists.{length}
use imagineos.Utf8.{
  Decoder, new, replacement, push, push_pending, push_taken, next_byte, first_byte, finish, begin,
  pending_or_read, serial_read_char, serial_read_chars,
}
use imagineos.Utf8.Scalars.{push-push_pending}
use imagineos.Utf8.Encoding.{IsScalar, encode, encode_all}
use imagineos.Utf8.RoundTrip.{serial_read_chars-encode_all}
use imagineos.Utf8.Accepted.{first_answer, first_answer-encode}

-- Behind the first byte of `ç`.
abbrev waiting : Decoder
waiting = record { codepoint = 3; minimum = 0x80; remaining = 1; pending_byte = none }

first_run : push 0xc3 new ≡ (none, waiting)
unfolding push first_byte begin
first_run = refl

second_run : (push 0xa7 waiting).0 ≡ some 0xe7
unfolding push next_byte finish
second_run = refl

-- A surrogate.
surrogate :
    (push 0x80
      (record { codepoint = 0x360; minimum = 0x800; remaining = 1; pending_byte = none })).0
    ≡ some replacement
unfolding push next_byte finish
surrogate = refl

abbrev text : List ℕ
text = 0x41 ∷ 0xe7 ∷ 0x20ac ∷ 0x1f600 ∷ []

text_bytes :
    encode_all text ≡ 0x41 ∷ 0xc3 ∷ 0xa7 ∷ 0xe2 ∷ 0x82 ∷ 0xac ∷ 0xf0 ∷ 0x9f ∷ 0x98 ∷ 0x80 ∷ []
text_bytes = refl

serial_read_chars-encode_all_example :
    serial_read_chars (length (encode_all text) + 2) new (encode_all text) ≡ text
serial_read_chars-encode_all_example = serial_read_chars-encode_all text 2 (
  inl (omega arith),
  (inl (omega arith), (inl (omega arith), (inr (omega arith, omega arith), tt))),
)

-- A byte that breaks off a sequence is read by the next call.
broken_run :
    serial_read_chars 5 new (0xc3 ∷ 0x42 ∷ 0xc3 ∷ 0xa7 ∷ []) ≡ replacement ∷ 0x42 ∷ 0xe7 ∷ []
unfolding serial_read_chars serial_read_char pending_or_read push_pending push_taken push first_byte
    next_byte finish begin
broken_run = refl

first_answer_run : first_answer [] (0xc3 ∷ 0xa7 ∷ 0x41 ∷ []) new ≡ some (0xc3 ∷ 0xa7 ∷ [], 0xe7)
unfolding first_answer push first_byte next_byte finish begin
first_answer_run = refl

first_answer-encode_example : (0xc3 ∷ 0xa7 ∷ [] ≡ encode 0xe7) × IsScalar 0xe7
first_answer-encode_example =
    first_answer-encode (0xc3 ∷ 0xa7 ∷ 0x41 ∷ []) (0xc3 ∷ 0xa7 ∷ []) 0xe7
      (omega arith, (omega arith, (omega arith, tt))) (λ e. omega arith) first_answer_run

push-push_pending_example :
    ((push 0x42 waiting).0 ≡ some replacement)
    × (push_pending (push 0x42 waiting).1 ≡ push 0x42 new)
push-push_pending_example = push-push_pending 0x42 waiting (λ e. omega arith) (λ e. omega arith)
