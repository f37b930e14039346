-- ===== src/Utf8.antt =====
-- kernel/src/console/utf8.rs: the incremental UTF-8 decoder, and serial_read_char of
-- kernel/src/abi/syscall.rs, which reads the serial port through it. The port is the list of the
-- bytes that it is going to give.
pub mod Scalars
pub mod Encoding
pub mod RoundTrip
pub mod Accepted
mod Tests
use imagineos.Base.{
  ℕ, zero, suc, ◌+◌, ◌-◌, ◌*◌, ◌/◌, ◌%◌, ◌^◌, Bool, true, false, ◌&&◌, ◌||◌, not, Option, none,
  some, List, [], ◌∷◌, ◌++◌, ltb, leb, ◌==◌, if◌then◌else◌,
}
use Prim.Native.Nat.{bit_and, bit_or}

pub record Decoder : Type 0 where
  pub codepoint : ℕ
  pub minimum : ℕ
  pub remaining : ℕ
  pub pending_byte : Option ℕ

abbrev pub new : Decoder
new = record { codepoint = 0; minimum = 0; remaining = 0; pending_byte = none }

-- U+FFFD
abbrev pub replacement : ℕ
replacement = 0xfffd

-- `lo..=hi`
abbrev within : ℕ → ℕ → ℕ → Bool
within lo hi byte = leb lo byte && leb byte hi

-- `char::from_u32` accepts the Unicode scalar values.
abbrev pub is_scalar : ℕ → Bool
is_scalar c = ltb c 0xd800 || (ltb 0xdfff c && ltb c 0x110000)

pub begin : ℕ → ℕ → ℕ → Decoder → Decoder
begin codepoint minimum remaining d = record d {
  codepoint = codepoint;
  minimum = minimum;
  remaining = remaining;
}

-- The match on a first byte.
pub first_byte : ℕ → Decoder → Option ℕ × Decoder
unfolding begin
first_byte byte d =
    if within 0x00 0x7f byte
    then (some byte, d)
    else if within 0xc2 0xdf byte
    then (none, begin (bit_and byte 0x1f) 0x80 1 d)
    else if within 0xe0 0xef byte
    then (none, begin (bit_and byte 0x0f) 0x800 2 d)
    else if within 0xf0 0xf4 byte
    then (none, begin (bit_and byte 0x07) 0x10000 3 d)
    else (some replacement, d)

-- The answer once the last byte is in.
pub finish : Decoder → Option ℕ
finish d =
    if ltb d.codepoint d.minimum
    then some replacement
    else if is_scalar d.codepoint
    then some d.codepoint
    else some replacement

-- Six more bits; a u32 drops what leaves it at the top.
abbrev pub advance : ℕ → Decoder → Decoder
advance byte d = record d {
  codepoint = bit_or (d.codepoint * 2 ^ 6 % 2 ^ 32) (bit_and byte 0x3f);
  remaining = d.remaining - 1;
}

pub next_byte : ℕ → Decoder → Option ℕ × Decoder
unfolding finish
next_byte byte d =
    if not (bit_and byte 0xc0 == 0x80)
    then (some replacement, record new { pending_byte = some byte })
    else if not (d.remaining - 1 == 0)
    then (none, advance byte d)
    else (finish (advance byte d), advance byte d)

pub push : ℕ → Decoder → Option ℕ × Decoder
unfolding first_byte next_byte
push byte d = if d.remaining == 0 then first_byte byte d else next_byte byte d

-- `take` empties the slot before the byte is pushed.
pub push_taken : Option ℕ → Decoder → Option ℕ × Decoder
push_taken none d = (none, d)
push_taken (some byte) d = push byte d

pub push_pending : Decoder → Option ℕ × Decoder
unfolding push_taken
push_pending d = push_taken d.pending_byte (record d { pending_byte = none })

-- The answer of `push_pending`, or else the next byte of the port.
pub pending_or_read : Option ℕ × Decoder → List ℕ → Option ℕ × Decoder × List ℕ
pending_or_read (some c, d) port = (some c, d, port)
pending_or_read (none, d) [] = (none, d, [])
pending_or_read (none, d) (byte ∷ port) = ((push byte d).0, (push byte d).1, port)

pub serial_read_char : Decoder → List ℕ → Option ℕ × Decoder × List ℕ
unfolding pending_or_read
serial_read_char d port = pending_or_read (push_pending d) port

abbrev pub prepend : Option ℕ → List ℕ → List ℕ
prepend none cs = cs
prepend (some c) cs = c ∷ cs

-- The characters that so many calls in a row give.
pub serial_read_chars : ℕ → Decoder → List ℕ → List ℕ
serial_read_chars zero d port = []
serial_read_chars (suc calls) d port =
    let (o, d', port') = serial_read_char d port in prepend o (serial_read_chars calls d' port')
