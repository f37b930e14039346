-- ===== src/Elf/Tests.antt =====
-- The parser on an image of 120 bytes with one segment.
use imagineos.Base.{ℕ, ◌≡◌, refl, some, List, [], ◌∷◌}
use imagineos.Base.Lists.{length, take, drop}
use imagineos.Base.Outcome.{ok, err, bind, ok_or, reject, skip}
use imagineos.Elf.{
  Elf64, Segment, Error, parse, segment, file_bytes, parse_headers, checked, scan, note_segment,
  read, unsupported,
}
use imagineos.Elf.Segments.{IsLoadable, segment_lem}
use imagineos.Elf.Parsed.{Readable, TableIn, HasEntry, parse_lem}

abbrev image : List ℕ
image =
    127 ∷ 69 ∷ 76 ∷ 70 ∷ 2 ∷ 1 ∷ 0 ∷ 0 ∷ 0 ∷ 0 ∷ 0 ∷ 0 ∷ 0 ∷ 0 ∷ 0 ∷ 0 ∷ 2 ∷ 0 ∷ 62 ∷ 0 ∷ 1 ∷ 0 ∷ 0
    ∷ 0 ∷ 16 ∷ 0 ∷ 64 ∷ 0 ∷ 0 ∷ 0 ∷ 0 ∷ 0 ∷ 64 ∷ 0 ∷ 0 ∷ 0 ∷ 0 ∷ 0 ∷ 0 ∷ 0 ∷ 0 ∷ 0 ∷ 0 ∷ 0 ∷ 0 ∷ 0
    ∷ 0 ∷ 0 ∷ 0 ∷ 0 ∷ 0 ∷ 0 ∷ 64 ∷ 0 ∷ 56 ∷ 0 ∷ 1 ∷ 0 ∷ 0 ∷ 0 ∷ 0 ∷ 0 ∷ 0 ∷ 0 ∷ 1 ∷ 0 ∷ 0 ∷ 0 ∷ 5
    ∷ 0 ∷ 0 ∷ 0 ∷ 0 ∷ 0 ∷ 0 ∷ 0 ∷ 0 ∷ 0 ∷ 0 ∷ 0 ∷ 0 ∷ 0 ∷ 64 ∷ 0 ∷ 0 ∷ 0 ∷ 0 ∷ 0 ∷ 0 ∷ 0 ∷ 0 ∷ 0 ∷ 0
    ∷ 0 ∷ 0 ∷ 0 ∷ 120 ∷ 0 ∷ 0 ∷ 0 ∷ 0 ∷ 0 ∷ 0 ∷ 0 ∷ 0 ∷ 2 ∷ 0 ∷ 0 ∷ 0 ∷ 0 ∷ 0 ∷ 0 ∷ 0 ∷ 0 ∷ 0 ∷ 0
    ∷ 0 ∷ 0 ∷ 0 ∷ 0 ∷ []

abbrev elf : Elf64
elf = record {
  bytes = image;
  entry = 0x400010;
  program_headers = 64;
  program_header_count = 1;
  program_header_size = 56;
}

abbrev text : Segment
text = record {
  virtual_address = 0x400000;
  memory_size = 0x200;
  file_offset = 0;
  file_size = 120;
  flags = 5;
}

parse_run : parse image ≡ ok elf
unfolding parse parse_headers checked scan note_segment segment read unsupported bind ok_or reject
    skip
parse_run = refl

parse_short : parse (0x7f ∷ []) ≡ err Error.truncated
unfolding parse reject
parse_short = refl

segment_run : segment elf 0 ≡ ok (some text)
unfolding segment read bind ok_or reject skip
segment_run = refl

parse_lem_example : (image ≡ image) × TableIn image elf × Readable elf 0 × HasEntry elf
parse_lem_example = parse_lem image elf 0 parse_run

segment_lem_example :
    IsLoadable elf text
    × (file_bytes elf text ≡ some (take 120 (drop 0 image)))
    × (length (take 120 (drop 0 image)) ≡ 120)
segment_lem_example = segment_lem elf 0 text segment_run
