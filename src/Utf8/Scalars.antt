-- ===== src/Utf8/Scalars.antt =====
-- What becomes of a byte that breaks off a sequence.
use imagineos.Base.{ℕ, ◌≡◌, ◌≢◌, refl, false, some, ◌==◌, arith}
use Prim.Native.Nat.{bit_and}
use imagineos.Utf8.{Decoder, new, replacement, next_byte, push, push_taken, push_pending}

-- A byte that is no continuation of a sequence that waits for one is answered with U+FFFD and not
-- lost: `push_pending` then gives what `push` of this byte gives to a fresh decoder.
pub push-push_pending :
    (byte : ℕ) (d : Decoder)
    → d.remaining ≢ 0
    → bit_and byte 0xc0 ≢ 0x80
    → ((push byte d).0 ≡ some replacement) × (push_pending (push byte d).1 ≡ push byte new)
unfolding push push_pending push_taken next_byte
push-push_pending byte d waits breaks =
    let t : (d.remaining == 0) ≡ false = ground arith in
    let u : (bit_and byte 0xc0 == 0x80) ≡ false = ground arith in rw (t, u) (refl, refl)
