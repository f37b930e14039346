-- ===== src/Elf/Segments.antt =====
-- What `segment` and `file_bytes` promise of a segment that is accepted.
use imagineos.Base.{
  ℕ, ◌+◌, ◌≤◌, ◌<◌, ◌≡◌, some, arith, leb, checked_add, u64_max, Bool-cases, inl, inr,
}
use imagineos.Base.Lists.{length, take, drop, length-take, length-drop}
use imagineos.Base.Outcome.{Outcome, ok, bind-ok, ok_or-ok, reject-ok, skip-ok}
use imagineos.Elf.{Error, Segment, Elf64, loadable, segment_at, segment, file_bytes}

-- The file range lies in the image, the memory range in user space, and the file fits the memory.
pub record IsLoadable (elf : Elf64) (s : Segment) : Type 0 where
  pub in_file : s.file_offset + s.file_size ≤ length elf.bytes
  pub fits_memory : s.file_size ≤ s.memory_size
  pub some_byte : 0 < s.memory_size
  pub above : 0x400000 ≤ s.virtual_address
  pub below : s.virtual_address + s.memory_size ≤ 0x8000_0000_0000
  pub fits_word : s.file_offset + s.file_size ≤ u64_max

pub checked_add-some : (a b c : ℕ) → checked_add a b ≡ some c → (c ≡ a + b) × (a + b ≤ u64_max)
checked_add-some a b c h = elim (Bool-cases (leb (a + b) u64_max)) [
  | inl t ↦ ground arith
  | inr t ↦ ground arith
]

loadable-IsLoadable :
    (elf : Elf64) (o v f m : ℕ) (flags : Outcome Error ℕ) (s : Segment)
    → loadable elf o v f m flags ≡ ok (some s)
    → IsLoadable elf s
unfolding loadable
loadable-IsLoadable elf o v f m flags s h =
    let (z, h0) = skip-ok h in
    let (file_end, e1, h1) = bind-ok h0 in
    let (memory_end, e2, h2) = bind-ok h1 in
    let (t, h3) = reject-ok _ h2 in
    let (fl, e4, h4) = bind-ok h3 in
    let (f1, f2) = checked_add-some o f file_end (ok_or-ok _ e1) in
    let (m1, m2) = checked_add-some v m memory_end (ok_or-ok _ e2) in
    let e : record {
      virtual_address = v;
      memory_size = m;
      file_offset = o;
      file_size = f;
      flags = fl;
    }
        ≡ s =
      cc in
    rw (← e) (record {
      in_file = ground arith;
      fits_memory = ground arith;
      some_byte = ground arith;
      above = ground arith;
      below = ground arith;
      fits_word = f2;
    })

segment_at-IsLoadable :
    (elf : Elf64) (header : ℕ) (s : Segment)
    → segment_at elf header ≡ ok (some s)
    → IsLoadable elf s
unfolding segment_at
segment_at-IsLoadable elf header s h =
    let (kind, _, h1) = bind-ok h in
    let (z, h2) = skip-ok h1 in
    let (o, _, h3) = bind-ok h2 in
    let (v, _, h4) = bind-ok h3 in
    let (f, _, h5) = bind-ok h4 in
    let (m, _, h6) = bind-ok h5 in loadable-IsLoadable elf o v f m _ s h6

segment-IsLoadable :
    (elf : Elf64) (index : ℕ) (s : Segment) → segment elf index ≡ ok (some s) → IsLoadable elf s
unfolding segment
segment-IsLoadable elf index s h =
    let (z, h0) = skip-ok h in
    let (stride, _, h1) = bind-ok h0 in
    let (header, _, h2) = bind-ok h1 in segment_at-IsLoadable elf header s h2

-- A segment that `segment` gives lies in user space, from 0x400000 up to 2^47, has a byte, and holds
-- its part of the file; `file_bytes` finds that part in the image and it has the stated size.
pub segment_lem :
    (elf : Elf64) (index : ℕ) (s : Segment)
    → segment elf index ≡ ok (some s)
    → IsLoadable elf s
      × (file_bytes elf s ≡ some (take s.file_size (drop s.file_offset elf.bytes)))
      × (length (take s.file_size (drop s.file_offset elf.bytes)) ≡ s.file_size)
unfolding file_bytes
segment_lem elf index s h =
    let v = segment-IsLoadable elf index s h in
    (
      v,
      ground (arith, v.in_file, v.fits_word),
      omega (
        arith,
        v.in_file,
        length-take s.file_size (drop s.file_offset elf.bytes),
        length-drop s.file_offset elf.bytes,
      ),
    )
