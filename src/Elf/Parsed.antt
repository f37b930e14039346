-- ===== src/Elf/Parsed.antt =====
-- What an image has passed when `parse` accepts it.
use native.Mathlib.Decide.{ℕ_discrete, dec_lt}
use imagineos.Base.{
  checked_mul, ℕ, zero, suc, ◌+◌, ◌≤◌, ◌<◌, ◌≡◌, ◌⊎◌, refl, Bool, true, false, Option, none, some,
  List, arith, ltb, ◌==◌, if◌then◌else◌, checked_add, ap, sym, ◌∙◌, ◌*◌, inl, inr,
}
use imagineos.Base.Lists.{length}
use imagineos.Base.Outcome.{ok, bind-ok, ok_or-ok, reject-ok, ok-injective, skip}
use Prim.Native.Nat.{bit_and}
use imagineos.Elf.{
  Segment, Elf64, segment, note_segment, holds_entry, scan, checked, parse_headers, parse,
}
use imagineos.Elf.Segments.{IsLoadable, segment_lem, checked_add-some}

-- The header at an index is read without an error.
abbrev pub Readable : Elf64 → ℕ → Type 0
Readable elf i = (o : Option Segment) × (segment elf i ≡ ok o)

-- An executable segment that holds the entry point.
pub record HoldsEntry (elf : Elf64) (s : Segment) : Type 0 where
  pub executable : (bit_and s.flags 1 == 0) ≡ false
  pub from : s.virtual_address ≤ elf.entry
  pub to : elf.entry < s.virtual_address + s.memory_size

abbrev pub HasEntry : Elf64 → Type 0
HasEntry elf =
    (i : ℕ) × (s : Segment) × (segment elf i ≡ ok (some s)) × IsLoadable elf s × HoldsEntry elf s

-- A round keeps the flag, or has found the entry point.
note_segment-entry :
    (elf : Elf64) (o : Option Segment) (index : ℕ) (l e : Bool) (out : Bool × Bool)
    → segment elf index ≡ ok o
    → note_segment elf o l e ≡ ok out
    → (out.1 ≡ true)
    → (e ≡ true) ⊎ HasEntry elf
unfolding note_segment
note_segment-entry elf none index l e out g h t =
    inl (ap (λ (p : Bool × Bool). p.1) (ok-injective h) ∙ t)
note_segment-entry elf (some s) index l e out g h t =
    let (end, e1, h1) = bind-ok h in
    let (e2, _) = checked_add-some s.virtual_address s.memory_size end (ok_or-ok _ e1) in
    of end e2 (holds_entry elf s end) refl (ap (λ (p : Bool × Bool). p.1) (ok-injective h1) ∙ t)
  where
    of :
        (end : ℕ)
        → end ≡ s.virtual_address + s.memory_size
        → (c : Bool) → holds_entry elf s end ≡ c
        → (if c then true else e) ≡ true
        → (e ≡ true) ⊎ HasEntry elf
    of end e2 true c k = inr (
      index,
      s,
      g,
      (segment_lem elf index s g).0,
      record { executable = ground arith; from = ground arith; to = ground arith },
    )
    of end e2 false c k = inl k

scan_entry :
    (n : ℕ) (elf : Elf64) (index : ℕ) (l e : Bool) (out : Bool × Bool)
    → scan n elf index l e ≡ ok out
    → out.1 ≡ true
    → (e ≡ true) ⊎ HasEntry elf
unfolding scan
scan_entry zero elf index l e out h t = inl (ap (λ (p : Bool × Bool). p.1) (ok-injective h) ∙ t)
scan_entry (suc n) elf index l e out h t =
    let (o, g, h1) = bind-ok h in
    let (flags, m, h2) = bind-ok h1 in
    elim (scan_entry n elf (index + 1) flags.0 flags.1 out h2 t) [
      | inl k ↦ note_segment-entry elf o index l e flags g m k
      | inr k ↦ inr k
    ]

-- Every header that the loop passes is readable.
scan-Readable :
    (n : ℕ) (elf : Elf64) (index : ℕ) (l e : Bool) (out : Bool × Bool) (i : ℕ)
    → scan n elf index l e ≡ ok out
    → index ≤ i
    → i < index + n
    → Readable elf i
unfolding scan
scan-Readable zero elf index l e out i h lo hi = absurd (omega arith)
scan-Readable (suc n) elf index l e out i h lo hi =
    let (o, g, h1) = bind-ok h in
    let (flags, m, h2) = bind-ok h1 in
    elim (ℕ_discrete index i) [
      | yes q ↦ (o, ap (segment elf) (sym q) ∙ g)
      | no q ↦ scan-Readable n elf (index + 1) flags.0 flags.1 out i h2 (omega arith) (omega arith)
    ]

-- The table of headers lies in the image.
pub TableIn : List ℕ → Elf64 → Type 0
TableIn bytes elf =
    elf.program_headers + elf.program_header_size * elf.program_header_count ≤ length bytes

-- Behind its tests of the two headers `parse` goes on to the loop.
parse-checked :
    (bytes : List ℕ) (elf : Elf64)
    → parse bytes ≡ ok elf
    → (e : Elf64) × (e.bytes ≡ bytes) × TableIn bytes e × (checked e ≡ ok elf)
unfolding parse parse_headers TableIn
parse-checked bytes elf h =
    let (_, h1) = reject-ok _ h in
    let (_, h2) = reject-ok _ h1 in
    let (_, _, h3) = bind-ok h2 in
    let (_, h4) = reject-ok _ h3 in
    let (entry, _, h5) = bind-ok h4 in
    let (headers, _, h6) = bind-ok h5 in
    let (size, _, h7) = bind-ok h6 in
    let (count, _, h8) = bind-ok h7 in
    let (_, h9) = reject-ok _ h8 in
    let (table_size, a, h10) = bind-ok h9 in
    let (table_end, b, h11) = bind-ok h10 in
    let (c, h12) = reject-ok _ h11 in
    (
      record {
        bytes = bytes;
        entry = entry;
        program_headers = headers;
        program_header_count = count;
        program_header_size = size;
      },
      refl,
      omega (
        arith,
        in_image (length bytes) headers (size * count) table_size table_end
            (checked_mul-some size count table_size (ok_or-ok _ a)) (ok_or-ok _ b) c,
      ),
      h12,
    )
  where
    checked_mul-some : (x y z : ℕ) → checked_mul x y ≡ some z → z ≡ x * y
    checked_mul-some x y z g = ground arith

    in_image :
        (len headers product size end : ℕ)
        → size ≡ product
        → checked_add headers size ≡ some end
        → ltb len end ≡ false
        → headers + product ≤ len
    in_image len headers product size end g k l =
        ground (arith, checked_add-some headers size end k)

checked_lem :
    (e elf : Elf64) (index : ℕ)
    → checked e ≡ ok elf
    → (e ≡ elf) × (index < e.program_header_count → Readable e index) × HasEntry e
unfolding checked
checked_lem e elf index h =
    let (flags, g, h1) = bind-ok h in
    let (c, h2) = reject-ok _ h1 in
    (
      ok-injective h2,
      λ lt.
          scan-Readable e.program_header_count e 0 false false flags index g (omega arith)
            (omega arith),
      found (scan_entry e.program_header_count e 0 false false flags g (ground arith)),
    )
  where
    found : (false ≡ true) ⊎ HasEntry e → HasEntry e
    found (inl k) = cc
    found (inr k) = k

past_end :
    (elf : Elf64) (index : ℕ) → elf.program_header_count ≤ index → segment elf index ≡ ok none
unfolding segment skip
past_end elf index h = ground arith

-- If `parse` accepts an image, the result is a view of that image whose table of program headers
-- lies inside it; no call of `segment` on it fails, at any index; and some executable segment holds
-- the entry point, lies in user space and in the image.
pub parse_lem :
    (bytes : List ℕ) (elf : Elf64) (index : ℕ)
    → parse bytes ≡ ok elf
    → (elf.bytes ≡ bytes) × TableIn bytes elf × Readable elf index × HasEntry elf
parse_lem bytes elf index h =
    let (e, same, table, go) = parse-checked bytes elf h in
    let (q, readable, entry) = checked_lem e elf index go in
    rw (← q) (same, table, of e (dec_lt index e.program_header_count) readable, entry)
  where
    of :
        (e : Elf64)
        → Dec (index < e.program_header_count)
        → (index < e.program_header_count → Readable e index)
        → Readable e index
    of e (yes lt) k = k lt
    of e (no ge) k = (none, past_end e index (omega arith))
