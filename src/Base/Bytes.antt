-- ===== src/Base/Bytes.antt =====
-- Fields of a byte array: `to_le_bytes`, a copy into a part of an array, and what is read back.
use imagineos.Base.{ℕ, zero, suc, ◌+◌, ◌/◌, ◌%◌, ◌≤◌, ◌≡◌, refl, ap, List, [], ◌∷◌, arith}
use imagineos.Base.Lists.{length, take, drop, get_or}
use imagineos.Base.Outcome.{from_le_bytes}

-- The `count` lowest bytes of a number.
abbrev pub to_le_bytes : ℕ → ℕ → List ℕ
to_le_bytes zero v = []
to_le_bytes (suc count) v = (v % 256) ∷ to_le_bytes count (v / 256)

-- `bytes[offset..offset + new.len()].copy_from_slice(new)`; what is past the end is not written.
abbrev pub copy_from_slice : ℕ → List ℕ → List ℕ → List ℕ
copy_from_slice offset new [] = []
copy_from_slice zero [] (b ∷ bytes) = b ∷ bytes
copy_from_slice zero (n ∷ new) (b ∷ bytes) = n ∷ copy_from_slice zero new bytes
copy_from_slice (suc offset) new (b ∷ bytes) = b ∷ copy_from_slice offset new bytes

-- The number has no byte past the first `count`.
abbrev pub Fits : ℕ → ℕ → Type 0
Fits zero v = v ≡ 0
Fits (suc count) v = Fits count (v / 256)

pub from_le_bytes-to_le_bytes :
    (count v : ℕ) → Fits count v → from_le_bytes (to_le_bytes count v) ≡ v
from_le_bytes-to_le_bytes zero v h = omega arith
from_le_bytes-to_le_bytes (suc count) v h =
    let back = from_le_bytes-to_le_bytes count (v / 256) h in omega arith

pub length-to_le_bytes : (count v : ℕ) → length (to_le_bytes count v) ≡ count
length-to_le_bytes zero v = refl
length-to_le_bytes (suc count) v = omega (arith, length-to_le_bytes count (v / 256))

pub length-copy_from_slice :
    (offset : ℕ) (new bytes : List ℕ) → length (copy_from_slice offset new bytes) ≡ length bytes
length-copy_from_slice offset new [] = refl
length-copy_from_slice zero [] (b ∷ bytes) = refl
length-copy_from_slice zero (n ∷ new) (b ∷ bytes) =
    omega (arith, length-copy_from_slice zero new bytes)
length-copy_from_slice (suc offset) new (b ∷ bytes) =
    omega (arith, length-copy_from_slice offset new bytes)

-- The part that was written is read back.
pub copy_from_slice-here :
    (count offset : ℕ) (new bytes : List ℕ)
    → length new ≡ count
    → offset + count ≤ length bytes
    → take count (drop offset (copy_from_slice offset new bytes)) ≡ new
copy_from_slice-here zero zero [] bytes e h = refl
copy_from_slice-here zero (suc offset) [] [] e h = refl
copy_from_slice-here zero (suc offset) [] (b ∷ bytes) e h =
    copy_from_slice-here zero offset [] bytes e (omega arith)
copy_from_slice-here zero offset (n ∷ new) bytes e h = absurd (omega arith)
copy_from_slice-here (suc count) offset [] bytes e h = absurd (omega arith)
copy_from_slice-here (suc count) zero (n ∷ new) [] e h = absurd (omega arith)
copy_from_slice-here (suc count) zero (n ∷ new) (b ∷ bytes) e h =
    ap (λ t. n ∷ t) (copy_from_slice-here count zero new bytes (omega arith) (omega arith))
copy_from_slice-here (suc count) (suc offset) (n ∷ new) [] e h = absurd (omega arith)
copy_from_slice-here (suc count) (suc offset) (n ∷ new) (b ∷ bytes) e h =
    copy_from_slice-here (suc count) offset (n ∷ new) bytes e (omega arith)

-- A part before what was written is as it was.
pub copy_from_slice-before :
    (count at offset : ℕ) (new bytes : List ℕ)
    → at + count ≤ offset
    → take count (drop at (copy_from_slice offset new bytes)) ≡ take count (drop at bytes)
copy_from_slice-before count at offset new [] h = refl
copy_from_slice-before zero zero offset new (b ∷ bytes) h = refl
copy_from_slice-before (suc count) at zero new (b ∷ bytes) h = absurd (omega arith)
copy_from_slice-before (suc count) zero (suc offset) new (b ∷ bytes) h =
    ap (λ t. b ∷ t) (copy_from_slice-before count zero offset new bytes (omega arith))
copy_from_slice-before zero (suc at) zero new (b ∷ bytes) h = absurd (omega arith)
copy_from_slice-before count (suc at) (suc offset) new (b ∷ bytes) h =
    copy_from_slice-before count at offset new bytes (omega arith)

-- A part after what was written is as it was.
pub copy_from_slice-after :
    (count at offset : ℕ) (new bytes : List ℕ)
    → offset + length new ≤ at
    → take count (drop at (copy_from_slice offset new bytes)) ≡ take count (drop at bytes)
copy_from_slice-after count at offset new [] h = refl
copy_from_slice-after count at zero [] (b ∷ bytes) h = refl
copy_from_slice-after count zero zero (n ∷ new) (b ∷ bytes) h = absurd (omega arith)
copy_from_slice-after count (suc at) zero (n ∷ new) (b ∷ bytes) h =
    copy_from_slice-after count at zero new bytes (omega arith)
copy_from_slice-after count zero (suc offset) new (b ∷ bytes) h = absurd (omega arith)
copy_from_slice-after count (suc at) (suc offset) new (b ∷ bytes) h =
    copy_from_slice-after count at offset new bytes (omega arith)

-- Two bytes that are read at once.
pub get_or-pair :
    (i : ℕ) (h : List ℕ) (a b : ℕ)
    → take 2 (drop i h) ≡ a ∷ b ∷ []
    → (get_or h i 0 ≡ a) × (get_or h (suc i) 0 ≡ b)
get_or-pair zero [] a b e = cc
get_or-pair zero (x ∷ []) a b e = cc
get_or-pair zero (x ∷ y ∷ h) a b e = (cc, cc)
get_or-pair (suc i) [] a b e = cc
get_or-pair (suc i) (x ∷ h) a b e = get_or-pair i h a b e
