-- ===== src/Elf.antt =====
-- kernel/src/exec/elf.rs: the parser of executables.
pub mod Segments
pub mod Parsed
mod Tests
use imagineos.Base.{
  checked_mul, same_bytes, ℕ, zero, suc, ◌+◌, ◌*◌, ◌^◌, Bool, true, false, ◌&&◌, ◌||◌, not, Option,
  none, some, List, [], ◌∷◌, ltb, leb, ◌==◌, if◌then◌else◌, checked_add, u64_max,
}
use imagineos.Base.Lists.{length, get_or, take}
use imagineos.Base.Outcome.{Outcome, ok, err, bind, ok_or, reject, skip, slice, from_le_bytes}
use Prim.Native.Nat.{bit_and}

pub data Error : Type 0 where
  truncated invalid_magic unsupported_format invalid_program_headers invalid_segment : Error

pub record Segment : Type 0 where
  pub virtual_address : ℕ
  pub memory_size : ℕ
  pub file_offset : ℕ
  pub file_size : ℕ
  pub flags : ℕ

pub record Elf64 : Type 0 where
  pub bytes : List ℕ
  pub entry : ℕ
  pub program_headers : ℕ
  pub program_header_count : ℕ
  pub program_header_size : ℕ

-- `read_u16`, `read_u32` and `read_u64`, by the number of bytes.
pub read : ℕ → List ℕ → ℕ → Outcome Error ℕ
read width bytes offset =
    bind (ok_or (slice bytes offset width) Error.truncated) λ field. ok (from_le_bytes field)

-- "\x7fELF"
abbrev pub magic : List ℕ
magic = 0x7f ∷ 0x45 ∷ 0x4c ∷ 0x46 ∷ []

-- The tests of `segment` on the fields of a header whose type is PT_LOAD.
pub loadable : Elf64 → ℕ → ℕ → ℕ → ℕ → Outcome Error ℕ → Outcome Error (Option Segment)
loadable elf file_offset virtual_address file_size memory_size flags =
    skip ((file_size == 0) && (memory_size == 0)) (
      bind (ok_or (checked_add file_offset file_size) Error.invalid_segment) λ file_end.
        bind (ok_or (checked_add virtual_address memory_size) Error.invalid_segment) λ memory_end.
          reject
            (ltb (length elf.bytes) file_end
              || (ltb memory_size file_size
                  || ((memory_size == 0)
                      || (ltb virtual_address 0x400000 || ltb 0x8000_0000_0000 memory_end))))
            Error.invalid_segment
            (bind flags λ flags. ok (
              some (record {
                virtual_address = virtual_address;
                memory_size = memory_size;
                file_offset = file_offset;
                file_size = file_size;
                flags = flags;
              }))))

-- `segment` from the address of the header on.
pub segment_at : Elf64 → ℕ → Outcome Error (Option Segment)
unfolding loadable
segment_at elf header = bind (read 4 elf.bytes header) λ kind. skip (not (kind == 1)) (
    bind (read 8 elf.bytes (header + 8)) λ file_offset.
      bind (read 8 elf.bytes (header + 16)) λ virtual_address.
        bind (read 8 elf.bytes (header + 32)) λ file_size.
          bind (read 8 elf.bytes (header + 40)) λ memory_size.
            loadable elf file_offset virtual_address file_size memory_size
              (read 4 elf.bytes (header + 4)))

pub segment : Elf64 → ℕ → Outcome Error (Option Segment)
unfolding segment_at
segment elf index = skip (leb elf.program_header_count index) (
    bind (ok_or (checked_mul index elf.program_header_size) Error.invalid_program_headers) λ stride.
      bind (ok_or (checked_add elf.program_headers stride) Error.invalid_program_headers)
        λ header. segment_at elf header)

pub file_bytes : Elf64 → Segment → Option (List ℕ)
file_bytes elf s = elim (checked_add s.file_offset s.file_size) [
  | none ↦ none
  | some end ↦ if leb s.file_offset end then slice elf.bytes s.file_offset s.file_size else none
]

-- Whether the entry point lies in an executable segment with the end given.
abbrev pub holds_entry : Elf64 → Segment → ℕ → Bool
holds_entry elf s end =
    not (bit_and s.flags 1 == 0) && (leb s.virtual_address elf.entry && ltb elf.entry end)

-- A round of the loop of `parse`, on the segment that it found: the two flags after it.
pub note_segment : Elf64 → Option Segment → Bool → Bool → Outcome Error (Bool × Bool)
note_segment elf none loadable executable_entry = ok (loadable, executable_entry)
note_segment elf (some s) loadable executable_entry =
    bind (ok_or (checked_add s.virtual_address s.memory_size) Error.invalid_segment)
      λ end. ok (true, if holds_entry elf s end then true else executable_entry)

-- That loop, with `n` rounds left from `index` on.
pub scan : ℕ → Elf64 → ℕ → Bool → Bool → Outcome Error (Bool × Bool)
scan zero elf index loadable executable_entry = ok (loadable, executable_entry)
scan (suc n) elf index loadable executable_entry = bind (segment elf index) λ found.
    bind (note_segment elf found loadable executable_entry)
      λ flags. scan n elf (index + 1) flags.0 flags.1

-- The end of `parse`.
pub checked : Elf64 → Outcome Error Elf64
checked elf =
    bind (scan elf.program_header_count elf 0 false false)
      λ flags. reject (not flags.0 || not flags.1) Error.invalid_segment (ok elf)

-- The part of `parse` behind the tests of the ELF header's format.
pub parse_headers : List ℕ → Outcome Error Elf64
parse_headers bytes = bind (read 8 bytes 24) λ entry. bind (read 8 bytes 32) λ program_headers.
    bind (read 2 bytes 54) λ size. bind (read 2 bytes 56) λ count.
      reject (ltb size 56 || ((count == 0) || ltb 128 count)) Error.invalid_program_headers (
        bind (ok_or (checked_mul size count) Error.invalid_program_headers) λ table_size.
          bind (ok_or (checked_add program_headers table_size) Error.invalid_program_headers)
            λ table_end. reject (ltb (length bytes) table_end) Error.invalid_program_headers (
              checked (record {
                bytes = bytes;
                entry = entry;
                program_headers = program_headers;
                program_header_count = count;
                program_header_size = size;
              })))

-- `a()? != expected || rest`, where a failed read ends the whole test.
abbrev pub or_differs : Outcome Error ℕ → ℕ → Outcome Error Bool → Outcome Error Bool
or_differs field expected rest =
    bind field λ found. if not (found == expected) then ok true else rest

pub unsupported : List ℕ → Outcome Error Bool
unsupported bytes =
    if not (get_or bytes 4 0 == 2) || not (get_or bytes 5 0 == 1)
    then ok true
    else or_differs (read 2 bytes 16) 2 (
        or_differs (read 2 bytes 18) 62
          (or_differs (read 4 bytes 20) 1 (or_differs (read 2 bytes 52) 64 (ok false))))

pub parse : List ℕ → Outcome Error Elf64
parse bytes = reject (ltb (length bytes) 64) Error.truncated (
    reject (not (same_bytes (take 4 bytes) magic)) Error.invalid_magic
      (bind (unsupported bytes) λ bad. reject bad Error.unsupported_format (parse_headers bytes)))
